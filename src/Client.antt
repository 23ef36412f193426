-- ===== src/Client.antt =====
-- include/json-rpc/client/client.hpp: AbstractClient, over any connector. `S` is the state of the
-- connector and of what it talks to.
pub mod Retry
pub mod Calls
pub mod Remote
use json_rpc.Common.{
  ℕ, zero, suc, ◌+◌, ◌^◌, List, Bool, true, false, Option, none, some, ltb, leb, if◌then◌else◌,
}
use json_rpc.Common.Int.{ℤ, pos}
use json_rpc.Errors.{Result, ok, stop, Stop, Fault, Exception, ServerException, throw, ◌>>=◌}
use json_rpc.Json.{Json}
use json_rpc.Proto.{build_request, parse_response, result}

-- class ClientConnector
pub record Connector (S : Type 0) : Type 0 where
  pub send_and_response : List ℕ → S → Result (List ℕ) × S
  pub reconnect : S → Result (Unit {0}) × S

-- What is done about an exception in the body of the loop: call reconnect, count, or let it pass.
pub data Reaction : Type 0 where
  reconnects counts passes : Reaction

-- The `catch` clauses of the call without a result.
unfoldable pub catch_void : Exception → Reaction
catch_void (Exception.server e) = reconnects
catch_void Exception.read_fail = counts
catch_void Exception.write_fail = counts
catch_void _ = passes

-- Those of the call with a result.
unfoldable pub catch_with : Exception → Reaction
catch_with (Exception.server ServerException.server_close_socket) = reconnects
catch_with Exception.read_fail = counts
catch_with Exception.write_fail = counts
catch_with _ = passes

-- How a loop ended: with the value or the exception, the count `tried` and the connector.
pub record Ended (A : Type 0) (S : Type 0) : Type 0 where
  pub outcome : Result A
  pub tried : ℕ
  pub conn : S

module _ {A S : Type 0} (c : Connector S) (catch : Exception → Reaction) (parse : List ℕ → Result A)
    (msg : List ℕ) where
  -- The body of the `try`: send, read the answer and parse it.
  unfoldable pub round : S → Result A × S
  round s = let (r, s') = c.send_and_response msg s in (r >>= parse, s')

  -- After a call of reconnect the loop goes on, unless that call throws.
  reconnected : Result (Unit {0}) × S → ℕ → (ℕ → S → Option (Ended A S)) → Option (Ended A S)
  reconnected (ok _, s) tried again = again tried s
  reconnected (stop x, s) tried again = some (record { outcome = stop x; tried = tried; conn = s })

  react : Reaction → Exception → ℕ → S → (ℕ → S → Option (Ended A S)) → Option (Ended A S)
  unfolding reconnected
  react reconnects e tried s again = reconnected (c.reconnect s) tried again
  react counts e tried s again = again (tried + 1) s
  react passes e tried s again = some (record { outcome = throw e; tried = tried; conn = s })

  -- `break`, a `catch` clause, or a fault that nothing catches.
  settle : Result A × S → ℕ → (ℕ → S → Option (Ended A S)) → Option (Ended A S)
  unfolding react
  settle (ok a, s) tried again = some (record { outcome = ok a; tried = tried; conn = s })
  settle (stop (Stop.thrown e), s) tried again = react (catch e) e tried s again
  settle (stop x, s) tried again = some (record { outcome = stop x; tried = tried; conn = s })

  -- `while (true)`, with the number of rounds left; `none` if it has not ended by then.
  unfoldable pub call_loop : ℕ → ℕ → S → Option (Ended A S)
  unfolding settle
  call_loop zero tried s = none
  call_loop (suc fuel) tried s = settle (round s) tried (call_loop fuel)

abbrev pub max_try : ℕ
max_try = 8

-- The test behind the loop.
unfoldable pub give_up : {A S : Type 0} → Ended A S → Result A × S
give_up e = elim e.outcome [
  | ok a ↦ (
    if ltb max_try e.tried then throw (Exception.runtime_error "PRC call failed") else ok a,
    e.conn,
  )
  | stop x ↦ (stop x, e.conn)
]

-- class AbstractClient, with its connector's state.
pub record AbstractClient (S : Type 0) : Type 0 where
  pub conn : S
  pub msg_id : ℕ
  pub clientno : ℤ

-- AbstractClient(client): `number` is what rand() gives after srand(getpid()).
unfoldable pub make_client : {S : Type 0} → S → ℤ → AbstractClient S
make_client conn number = record { conn = conn; msg_id = 0; clientno = number }

module _ (j : Json) (aborts : Bool) {S : Type 0} (c : Connector S) where
  -- AbstractClient::_parse_response(response): the value is freed at once.
  unfoldable pub parse_void : List ℕ → Result (Unit {0})
  parse_void text = parse_response j aborts text >>= λ _. ok tt

  -- The member "result", through the serializer of type R; get returns nullptr if it is missing.
  unfoldable pub result_item : {R : Type 0} → (Option j.Value → Result R) → j.Value → Result R
  result_item decode v =
      if j.contain v result then decode (j.get v result) else throw Exception.no_result

  -- AbstractClient::_parse_response(response, r)
  unfoldable pub parse_with : {R : Type 0} → (Option j.Value → Result R) → List ℕ → Result R
  unfolding result_item
  parse_with decode text = parse_response j aborts text >>= result_item decode

  pub finished :
      {A : Type 0} → AbstractClient S → Option (Ended A S) → Option (Result A × AbstractClient S)
  unfolding give_up
  finished client none = none
  finished client (some e) =
      let (r, s) = give_up e in some (r, record client { conn = s; msg_id = client.msg_id + 1 })

  -- Both `call`, with the `catch` clauses and the parser as arguments. `_msg_id ++` is an `int`.
  pub call_by :
      {A : Type 0}
      → (Exception → Reaction)
      → (List ℕ → Result A)
      → ℕ
      → ℤ
      → ℕ
      → j.Value
      → AbstractClient S
      → Option (Result A × AbstractClient S)
  unfolding finished
  call_by catch parse fuel time method_hash content client =
      if leb (2 ^ 31) (client.msg_id + 1)
      then some (stop (Stop.fault Fault.overflow), client)
      else let msg =
          build_request j client.clientno (pos 0) (pos client.msg_id) time method_hash content in
        finished client (call_loop c catch parse msg fuel 0 client.conn)

  -- call(method_hash, sout)
  unfoldable pub call_void :
      ℕ → ℤ → ℕ → j.Value → AbstractClient S → Option (Result (Unit {0}) × AbstractClient S)
  unfolding call_by
  call_void fuel time method_hash content client =
      call_by catch_void parse_void fuel time method_hash content client

  -- call(method_hash, sout, r)
  unfoldable pub call_with :
      {R : Type 0}
      → (Option j.Value → Result R)
      → ℕ
      → ℤ
      → ℕ
      → j.Value
      → AbstractClient S
      → Option (Result R × AbstractClient S)
  unfolding call_by
  call_with decode fuel time method_hash content client =
      call_by catch_with (parse_with decode) fuel time method_hash content client
