-- ===== src/Wire/Exchange.antt =====
-- A call from SockClient::send_and_response to the thread of a connection and back, over two sockets
-- that are connected.
use json_rpc.Common.{
  ℕ, ◌^◌, ◌<◌, ◌≡◌, ◌≢◌, ◌⊎◌, true, false, List, [], ◌∷◌, ◌++◌, map, Option, some, length, All,
  concat, arith, inl, inr,
}
use json_rpc.Common.Int.{pos}
use json_rpc.Errors.{ok, ServerException, get_code}
use json_rpc.Json.{Json, JsonLaws}
use json_rpc.Proto.{parse_response}
use json_rpc.Proto.RoundTrip.{build_request-ne-nil}
use json_rpc.Service.{Handlers}
use json_rpc.Stream.{Stream, Read, got}
use json_rpc.SockClient.{SockClient, is_uninit, send_and_response}
use json_rpc.SockClient.Receive.{send_and_response-connected}
use json_rpc.SockClient
use json_rpc.Connection
use json_rpc.Server.Calls.{
  Call, request_text, answer_text, is_value, direct_call, CallFits, answer-direct_value,
  answer_text-ne-nil, value_answers, parse_response-answer_text,
}
use json_rpc.Server.Thread.{make_connection, attempt}
use json_rpc.Server.Thread.Serving.{attempt-returned}
use json_rpc.Wire.{request_delivered, response_delivered}

-- The bytes arrive in order, the first four in one read and the others in pieces that are not
-- empty, and then the rest of the reads.
pub record Delivers (reads : List Read) (bytes : List ℕ) (rest : List Read) : Type 0 where
  pub head : List ℕ
  pub pieces : List (List ℕ)
  pub arrives : reads ≡ got head ∷ (map got pieces ++ rest)
  pub four : length head ≡ 4
  pub full : All (λ p. p ≢ []) pieces
  pub carried : head ++ concat pieces ≡ bytes

module _ (j : Json) (laws : JsonLaws j)
    (codes : (e : ServerException) → j.keeps (pos (get_code e)) ≡ true) (fresh : Option ℕ)
    {S : Type 0} (hs : Handlers S j.Value) where
  -- Given the JSON laws and a library that keeps the error codes: a client with a socket, and a
  -- connection at the server, neither stream yet written to, where LOG(FATAL) aborts and the
  -- client's memory is zeroed. The client sends a call whose values fit their types, shorter than 2
  -- ^ 31 bytes, and that send returns, whatever the writes were; the bytes that it wrote arrive at
  -- the server, and those that the server's send of the answer wrote, which returned as well,
  -- arrive at the client, in order, each time the first four in one read and the others in pieces
  -- that are not empty. If the direct call of the handler gives a value, whose text has no zero
  -- byte and a length below 2048 that is not 1024, then the attempt of the thread answers the call
  -- and leaves the service in the state of the direct call, send_and_response returns that text
  -- with the socket kept and all of it read, and the client that parses it gets the result of the
  -- direct call.
  pub send_and_response-attempt :
      (c : Call j.Value) (s : S) (client : SockClient) (sent t t' : Stream) (rest rest' : List Read)
      → CallFits j laws hs c
      → length (request_text j c) < 2 ^ 31
      → is_uninit client.sock ≡ false
      → client.stream.sent ≡ []
      → t.sent ≡ []
      → SockClient.send (request_text j c) client.stream ≡ (ok tt, sent)
      → Delivers t.reads sent.sent rest
      → let (r, s') = direct_call j laws hs c s in
        let text = answer_text j r in
        is_value j r ≡ true
        → All (λ b. b ≢ 0) text
        → (length text < 1024) ⊎ ((1024 < length text) × (length text < 2048))
        → Connection.send true text (record t { reads = rest }) ≡ (ok tt, t')
        → Delivers sent.reads t'.sent rest'
        → (attempt j fresh true hs (make_connection t []) s ≡ (ok tt, make_connection t' [], s'))
          × (send_and_response (some 0) (request_text j c) client ≡ (
            ok text,
            record client { net = record client.net { stream = record sent { reads = rest' } } },
          ))
          × (parse_response j true text ≡ r)
  send_and_response-attempt c s client sent t t' rest rest' f short u un un' out d v z len back d' =
      (
        attempt-returned j fresh true hs t (record t { reads = rest }) t' (request_text j c) _ s _
            (request_delivered (request_text j c) client.stream sent t d.head d.pieces rest
              some_request short un d.arrives d.four d.full d.carried fresh out)
            (answer-direct_value j laws hs c s f v) back,
        send_and_response-connected (some 0) (request_text j c) client sent
            (record sent { reads = rest' }) (ok (answer_text j (direct_call j laws hs c s).0)) u out
            (response_delivered (answer_text j (direct_call j laws hs c s).0)
              (record t { reads = rest }) t' sent d'.head d'.pieces rest'
              (answer_text-ne-nil j laws hs c s (value_answers j laws hs _ v)) below un' d'.arrives
              d'.four d'.full d'.carried z len back),
        parse_response-answer_text j laws hs true codes c s f (value_answers j laws hs _ v),
      )
    where
      text : List ℕ
      text = answer_text j (direct_call j laws hs c s).0

      below : length text < 2 ^ 31
      below = elim len [ inl h ↦ omega (arith, h) | inr h ↦ omega (arith, h.1) ]

      some_request : request_text j c ≢ []
      some_request =
          build_request-ne-nil j laws c.clientno c.serverno c.messageid c.time c.method c.content
