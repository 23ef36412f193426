-- ===== src/Client/Remote.antt =====
-- A call of AbstractClient::call to a server: the client over a connector that brings each message
-- to the server and its answer back.
use json_rpc.Common.{ℕ, suc, ◌+◌, ◌^◌, ◌<◌, ◌≡◌, ap, ◌∙◌, List, Bool, true, Option, some}
use json_rpc.Common.Int.{ℤ, pos}
use json_rpc.Errors.{Result, ok, stop, Stop, ServerException, get_code, ◌>>=◌}
use json_rpc.Json.{Json, JsonLaws}
use json_rpc.Service.{Handlers}
use json_rpc.Server.{reply}
use json_rpc.Server.Calls.{
  Call, is_answer, request_text, direct_call, CallFits, reply-direct, parse_response-answer_text,
}
use json_rpc.Client.{
  Connector, passes, catch_with, round, call_loop, AbstractClient, parse_with, result_item,
  finished, call_with,
}
use json_rpc.Client.Retry.{call_loop-ok, call_loop-passes}
use json_rpc.Client.Calls.{call_by-message}

-- Whether the loop of the call with a result ends with this: a value, or an exception that it lets
-- pass.
abbrev pub IsFinal : {R : Type 0} → Result R → Type 0
IsFinal (ok r) = Unit
IsFinal (stop (Stop.thrown e)) = catch_with e ≡ passes
IsFinal (stop x) = ⊥

module _ (j : Json) (laws : JsonLaws j) (aborts : Bool)
    (codes : (e : ServerException) → j.keeps (pos (get_code e)) ≡ true) {S : Type 0}
    (hs : Handlers S j.Value) where
  -- The state of the connector is that of the service.
  abbrev pub direct_line : Connector S
  direct_line = record { send_and_response = reply j hs; reconnect = λ s. (ok tt, s) }

  module _ (time : ℤ) (method_hash : ℕ) (content : j.Value) (client : AbstractClient S)
      (few : client.msg_id + 1 < 2 ^ 31) where
    -- The call as the client builds it.
    abbrev pub call_of : Call j.Value
    call_of = record {
      clientno = client.clientno;
      serverno = pos 0;
      messageid = pos client.msg_id;
      time = time;
      method = method_hash;
      content = content;
    }

    round-direct :
        {R : Type 0} (decode : Option j.Value → Result R)
        → CallFits j laws hs call_of
        → let (r, s') = direct_call j laws hs call_of client.conn in
          is_answer j r ≡ true
          → round direct_line catch_with
              (parse_with j aborts direct_line decode)
              (request_text j call_of)
              client.conn
            ≡ (r >>= result_item j aborts direct_line decode, s')
    unfolding round parse_with
    round-direct decode f a =
        ap (λ (t, s'). (t >>= parse_with j aborts direct_line decode, s'))
          (reply-direct j laws hs call_of client.conn f a)
        ∙ ap
            (λ r. (
              r >>= result_item j aborts direct_line decode,
              (direct_call j laws hs call_of client.conn).1,
            ))
            (parse_response-answer_text j laws hs aborts codes call_of client.conn f a)

    -- A round that ends the loop ends the call.
    ended :
        {R : Type 0} (parse : List ℕ → Result R) (fuel : ℕ) (msg : List ℕ) (x : Result R) (s' : S)
        → IsFinal x
        → round direct_line catch_with parse msg client.conn ≡ (x, s')
        → finished j aborts direct_line client
            (call_loop direct_line catch_with parse msg (suc fuel) 0 client.conn)
          ≡ some (x, record client { conn = s'; msg_id = client.msg_id + 1 })
    unfolding finished
    ended parse fuel msg (ok r) s' h e =
        ap (finished j aborts direct_line client)
          (call_loop-ok direct_line catch_with parse msg fuel 0 client.conn s' r e)
    ended parse fuel msg (stop (Stop.thrown x)) s' h e =
        ap (finished j aborts direct_line client)
          (call_loop-passes direct_line catch_with parse msg fuel 0 client.conn s' x e h)
    ended parse fuel msg (stop x) s' h e = absurd h

    -- Given the JSON laws and a library that keeps the error codes, and a connector that brings a
    -- message to the server and its answer back: while the message number fits an int, a call with
    -- a result whose values fit their types, where the direct call of the handler gives a value or
    -- a server exception, and that or what decoding the result throws is no
    -- ServerCloseSocketException and no failed read or write, takes one round and one call of the
    -- handler. It returns the decoded result of the direct call, or throws its exception or that of
    -- the decoding; the message number goes up by one.
    pub call_with-direct :
        {R : Type 0} (decode : Option j.Value → Result R) (fuel : ℕ)
        → CallFits j laws hs call_of
        → let (r, s') = direct_call j laws hs call_of client.conn in
          is_answer j r ≡ true
          → IsFinal (r >>= result_item j aborts direct_line decode)
          → call_with j aborts direct_line decode (suc fuel) time method_hash content client
            ≡ some (
              r >>= result_item j aborts direct_line decode,
              record client { conn = s'; msg_id = client.msg_id + 1 },
            )
    unfolding call_with
    call_with-direct decode fuel f a settled =
        call_by-message j aborts direct_line time method_hash content client few catch_with
          (parse_with j aborts direct_line decode) (suc fuel)
        ∙ ended (parse_with j aborts direct_line decode) fuel (request_text j call_of) _ _ settled
            (round-direct decode f a)
