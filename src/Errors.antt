-- ===== src/Errors.antt =====
-- include/json-rpc/errors.hpp and the codes of include/json-rpc/proto.hpp: the exception classes,
-- and the ways in which a call ends without returning.
use Prim.Native.String.{◌++◌}
use json_rpc.Common.{ℕ, String, Bool, true, false, ◌≡◌, refl, ◌⊎◌, inl, inr}

-- The subclasses of `ServerException`.
pub data ServerException : Type 0 where
  server_close_socket : ServerException
  server_bad_message : ServerException
  server_method_not_found : ServerException
  server_json_not_parsed : ServerException
  server_param_mismatch : ServerException

-- The enumeration of class `Proto`.
abbrev pub socket_closed : ℕ
socket_closed = 1

abbrev pub method_not_found : ℕ
method_not_found = 2

abbrev pub json_not_parsed : ℕ
json_not_parsed = 3

abbrev pub param_mismatch : ℕ
param_mismatch = 4

abbrev pub bad_message : ℕ
bad_message = 5

-- The code that each constructor hands to `ServerException`.
unfoldable pub get_code : ServerException → ℕ
get_code server_close_socket = socket_closed
get_code server_bad_message = bad_message
get_code server_method_not_found = method_not_found
get_code server_json_not_parsed = json_not_parsed
get_code server_param_mismatch = param_mismatch

-- Every class that the library throws, with the serializer's own exception and the standard
-- library's `runtime_error`.
pub data Exception : Type 0 where
  server : ServerException → Exception
  no_result : Exception
  read_fail : Exception
  write_fail : Exception
  socket_fail : String → Exception
  host_fail : String → String → String → Exception
  runtime_error : String → Exception
  serialize_fail : Exception

server_what : ServerException → String
server_what server_close_socket = "Server closes socket"
server_what server_bad_message = "Bad message coming"
server_what server_method_not_found = "Method not found in server"
server_what server_json_not_parsed = "Json not parsed in server"
server_what server_param_mismatch = "Parameters mismatch in server"

-- The text of `what()`; that of the serializer's exception is its library's.
pub what : String → Exception → String
unfolding server_what
what other (server e) = server_what e
what other no_result = "No result return from server"
what other read_fail = "Read function failed"
what other write_fail = "Write function failed"
what other (socket_fail name) = name ++ " function failed"
what other (host_fail desc host port) = ((desc ++ "@") ++ host) ++ (":" ++ port)
what other (runtime_error text) = text
what other serialize_fail = other

-- Behaviour that C++ leaves undefined, and aborts.
pub data Fault : Type 0 where
  assertion : Fault  -- a failed `assert`
  bad_alloc : Fault  -- `new` of a negative or impossible size
  overrun : Fault  -- access past the end of an array
  indeterminate : Fault  -- use of a byte that nothing wrote
  null_pointer : Fault  -- use of a null pointer
  dangling : Fault  -- use of an object that was deleted
  overflow : Fault  -- signed overflow
  empty_list : Fault  -- front or pop_front of an empty list
  bad_unlock : Fault  -- unlock of a mutex that is not locked
  fatal : Fault  -- abort by LOG(FATAL)

-- Why a call does not return: an exception, a fault, or it waits for ever or for what the given
-- events do not bring.
pub data Stop : Type 0 where
  thrown : Exception → Stop
  fault : Fault → Stop
  waiting : Stop

pub data Result {ℓ} (A : Type ℓ) : Type ℓ where
  ok : A → Result A
  stop : Stop → Result A

infixl 5 ◌>>=◌
abbrev pub ◌>>=◌ {ℓ κ} : {A : Type ℓ} {B : Type κ} → Result A → (A → Result B) → Result B
ok a >>= f = f a
stop s >>= f = stop s

-- To split on a computed result and keep the equation.
pub Result-cases {ℓ} :
    {A : Type ℓ} (r : Result A) → ((e : Stop) × (r ≡ stop e)) ⊎ ((a : A) × (r ≡ ok a))
Result-cases (ok a) = inr (a, refl)
Result-cases (stop e) = inl (e, refl)

-- A line of LOG(FATAL), where `aborts` is whether it ends the program.
abbrev pub log_fatal : Bool → Result (Unit {0})
log_fatal true = stop (fault fatal)
log_fatal false = ok tt

abbrev pub throw {ℓ} : {A : Type ℓ} → Exception → Result A
throw e = stop (thrown e)

-- Inversion of a chain that succeeds.
pub >>=-eq-ok {ℓ κ} :
    {A : Type ℓ} {B : Type κ} (m : Result A) (f : A → Result B) (b : B)
    → (m >>= f) ≡ ok b
    → (a : A) × (m ≡ ok a) × (f a ≡ ok b)
>>=-eq-ok (ok a) f b e = (a, refl, e)
>>=-eq-ok (stop s) f b e = cc

pub bind_cong {ℓ κ} :
    {A : Type ℓ} {B : Type κ} (m : Result A) (f g : A → Result B)
    → ((a : A) → f a ≡ g a)
    → (m >>= f) ≡ (m >>= g)
bind_cong (ok a) f g e = e a
bind_cong (stop s) f g e = refl

pub bind_assoc {ℓ} :
    {A B C : Type ℓ} (m : Result A) (f : A → Result B) (g : B → Result C)
    → ((m >>= f) >>= g) ≡ (m >>= λ a. f a >>= g)
bind_assoc (ok a) f g = refl
bind_assoc (stop s) f g = refl
