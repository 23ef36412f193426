-- ===== src/Server/Wiring/Generated.antt =====
-- A call of a generated client to a generated service: from the registrations that the generator
-- writes (include/stubgen/writer.hpp) through the connector to the wrapper of the function.
use json_rpc.Common.{
  ℕ, String, ◌≡◌, ◌≢◌, refl, sym, ap, ◌∙◌, List, [], ◌∷◌, ◌++◌, map, Option, none, some, All, Bool,
  true, false, ◌==◌, if◌then◌else◌,
}
use json_rpc.Common.Int.{pos}
use json_rpc.Errors.{Result, ok, ServerException, get_code, ◌>>=◌}
use json_rpc.Json.{Json, JsonLaws}
use json_rpc.Proto.{parse_response}
use json_rpc.Proto.RoundTrip.{received}
use json_rpc.Service.{Handler, find, reg_all}
use json_rpc.Service.Dispatch.{last_call, find-reg_all}
use json_rpc.Server.{reply, or_error}
use json_rpc.Server.Rpc.{outcome, direct, rpc_lem}
use json_rpc.Server.Calls.{Call, request_text, CallFits}
use json_rpc.Server.Wiring.{Program, construct, answer_through}
use json_rpc.Server.Wiring.Registered.{answer_through-construct}
use json_rpc.Stub.Defs.{Function}
use json_rpc.Stub.Pieces.{wrapper_name}
use json_rpc.Stub.Writer.{number}
use json_rpc.Stub.Routes.{registrations, find-registrations}

module _ {A B : Type 0} (f : A → B) where
  abbrev map_some : Option A → Option B
  map_some none = none
  map_some (some a) = some (f a)

  abbrev pub with_values : List (ℕ × A) → List (ℕ × B)
  with_values = map (λ (n, a). (n, f a))

  last_call-with_values :
      (i : ℕ) (calls : List (ℕ × A)) (before : Option A)
      → last_call i (with_values calls) (map_some before) ≡ map_some (last_call i calls before)
  last_call-with_values i [] before = refl
  last_call-with_values i ((n, a) ∷ calls) before =
      ap (last_call i (with_values calls)) (chosen (n == i))
      ∙ last_call-with_values i calls (if n == i then some a else before)
    where
      chosen :
          (b : Bool)
          → (if b then some (f a) else map_some before) ≡ map_some (if b then some a else before)
      chosen true = refl
      chosen false = refl

  find-with_values :
      (i : ℕ) (calls : List (ℕ × A)) (a : A)
      → find i (reg_all calls []) ≡ some a
      → find i (reg_all (with_values calls) []) ≡ some (f a)
  unfolding find
  find-with_values i calls a e =
      find-reg_all i (with_values calls) []
      ∙ last_call-with_values i calls none
      ∙ ap map_some (sym (find-reg_all i calls []) ∙ e)

module _ (toupper : String → String) (itos : ℕ → String) (hash : String → ℕ) (j : Json)
    (laws : JsonLaws j) (aborts : Bool)
    (codes : (e : ServerException) → j.keeps (pos (get_code e)) ≡ true) {S : Type 0}
    (wrapper : String → Handler S j.Value) where
  -- Given the JSON laws, a library that keeps the error codes, and any C++ functions as the
  -- wrappers: a service constructed with the registrations that the generator writes, on any
  -- connector. If every function of its description has a number, then a call whose values fit
  -- their types, built by the client with the number of a function that no later function shares,
  -- answered through the connector and its answer parsed by the client, is a direct call of the
  -- wrapper of that very function, with the same outcome and the same new state of the service.
  pub generated_call :
      (p : Program S j.Value) (id : ℕ) (earlier later : List Function) (func : Function)
      (calls : List (ℕ × String)) (c : Call j.Value) (s : S)
      → registrations toupper itos hash (earlier ++ func ∷ later) ≡ ok calls
      → number toupper itos hash func ≡ ok c.method
      → All (λ g. number toupper itos hash g ≢ ok c.method) later
      → CallFits j laws (reg_all (with_values wrapper calls) []) c
      → let request = received j laws c.clientno c.serverno c.messageid c.time c.method c.content in
        let (r, s') = wrapper (wrapper_name func.name) s request in
        let (text, s'') =
          answer_through j (construct id (with_values wrapper calls) p) (request_text j c) s in
        ◌≡◌ {A = Result j.Value × S}
          (or_error j {S = S} [] text >>= parse_response j aborts, s'')
          (outcome j r, s')
  unfolding reply or_error
  generated_call p id earlier later func calls c s e k h f =
      ap (λ (t, s'). (or_error j {S = S} [] t >>= parse_response j aborts, s'))
        (answer_through-construct j p id (with_values wrapper calls) (request_text j c) s)
      ∙ rpc_lem j laws aborts codes (reg_all (with_values wrapper calls) []) c.clientno c.serverno
          c.messageid c.time c.method c.content s f
      ∙ ap
          (λ o.
            direct j o (received j laws c.clientno c.serverno c.messageid c.time c.method c.content)
              s)
          (find-with_values wrapper c.method calls (wrapper_name func.name)
            (find-registrations toupper itos hash earlier later func c.method calls e k h))
