-- ===== src/Server/Thread/Remote.antt =====
-- Calls of a client over one connection: from Proto::build_request through the thread of the
-- connection to Proto::parse_response.
use json_rpc.Common.{
  ℕ, ◌^◌, ◌<◌, ◌≡◌, ◌≢◌, sym, ap, subst, ◌∙◌, Bool, true, false, List, [], ◌∷◌, ◌++◌, map, Option,
  length, All, concat,
}
use json_rpc.Common.Int.{pos}
use json_rpc.Errors.{Result, ok, Exception, ServerException, throw, get_code}
use json_rpc.Json.{Json, JsonLaws}
use json_rpc.Proto.{build_error, parse_response}
use json_rpc.Proto.RoundTrip.{build_request-ne-nil, build_error-ne-nil, parse_response-build_error}
use json_rpc.Service.{Handlers}
use json_rpc.Server.{answer}
use json_rpc.Server.Calls.{
  Arrival, calls_of, pieces_of, request_text, is_value, answer_text, direct_call, direct_calls,
  CallFits, answer-direct_value, answer-direct_error, answer_text-ne-nil, value_answers,
  values_answer, parse_response-direct_calls,
}
use json_rpc.Stream.{Read, got, Write}
use json_rpc.Server.Thread.{serve}
use json_rpc.Server.Thread.Serving.{
  IsMessage, Served, no_more, one_more, arrival, arrivals, takes, conn, framed, serve_closed,
  serve_rejected,
}

module _ (j : Json) (laws : JsonLaws j) {S : Type 0} (hs : Handlers S j.Value) where
  -- The pieces are those of the call's text, which can be framed.
  abbrev pub IsArrival : Arrival j.Value → Type 0
  IsArrival (c, pieces) =
      CallFits j laws hs c
      × (concat pieces ≡ request_text j c)
      × (length (request_text j c) < 2 ^ 31)
      × All (λ p. p ≢ []) pieces

  -- A result that can be framed.
  abbrev pub IsShort : Result j.Value → Type 0
  IsShort r = length (answer_text j r) < 2 ^ 31

  arrival-IsMessage : (a : Arrival j.Value) → IsArrival a → IsMessage (concat a.1)
  arrival-IsMessage (c, pieces) (f, e, k, full) =
      subst IsMessage (sym e)
        (build_request-ne-nil j laws c.clientno c.serverno c.messageid c.time c.method c.content, k)

  calls_fit :
      (arrived : List (Arrival j.Value))
      → All IsArrival arrived
      → All (CallFits j laws hs) (calls_of arrived)
  calls_fit [] a = tt
  calls_fit (x ∷ arrived) a = (a.0.0, calls_fit arrived a.1)

  -- The thread's answers to calls that all return.
  direct_calls-Served :
      (fresh : Option ℕ) (aborts : Bool) (arrived : List (Arrival j.Value)) (s : S)
      → All IsArrival arrived
      → let (rs, s') = direct_calls j laws hs (calls_of arrived) s in
        All (λ r. is_value j r ≡ true) rs
        → All IsShort rs
        → Served j fresh aborts hs (pieces_of arrived) (map (answer_text j) rs) s s'
  unfolding direct_calls
  direct_calls-Served fresh aborts [] s a v short = no_more
  direct_calls-Served fresh aborts ((c, pieces) ∷ arrived) s a v short =
      one_more (arrival-IsMessage (c, pieces) a.0) a.0.3
        (ap (λ t. answer j hs t s) a.0.1 ∙ answer-direct_value j laws hs c s a.0.0 v.0)
        (answer_text-ne-nil j laws hs c s (value_answers j laws hs _ v.0), short.0)
        (direct_calls-Served fresh aborts arrived (direct_call j laws hs c s).1 a.1 v.1 short.1)

  module _ (codes : (e : ServerException) → j.keeps (pos (get_code e)) ≡ true) (fresh : Option ℕ)
      (aborts : Bool) (rest : List Read) (ws : List Write) (sent : List ℕ)
      (arrived : List (Arrival j.Value)) (s : S) (arrives : All IsArrival arrived)
      (returns : All (λ r. is_value j r ≡ true) (direct_calls j laws hs (calls_of arrived) s).0)
      (short : All IsShort (direct_calls j laws hs (calls_of arrived) s).0) where
    -- Given the JSON laws and a library that keeps the error codes, on a connection that no other
    -- thread shuts down and whose writes take every chunk: if calls whose values fit their types,
    -- built by the client, arrive one after the other, each shorter than 2 ^ 31 bytes and in pieces
    -- that are not empty behind its size, the direct calls of the handlers one after the other all
    -- return values, whose texts are shorter than 2 ^ 31 bytes, and the stream ends behind the
    -- calls, then the thread sends these texts, each behind its size, in order and once, clears its
    -- flag and returns, the service is in the state that the direct calls leave, and the client
    -- that parses the texts gets the results of the direct calls.
    pub serve_calls :
        let (rs, s') = direct_calls j laws hs (calls_of arrived) s in
        let texts = map (answer_text j) rs in
        (serve j fresh aborts hs
            (conn true (arrivals (pieces_of arrived) (got [] ∷ rest)) (takes texts ws) sent)
            s
          ≡ (ok tt, conn false rest ws (sent ++ concat (map framed texts)), s'))
        × (map (parse_response j aborts) texts ≡ rs)
    serve_calls = (
      serve_closed j fresh aborts hs rest ws sent (pieces_of arrived)
          (map (answer_text j) (direct_calls j laws hs (calls_of arrived) s).0) s
          (direct_calls j laws hs (calls_of arrived) s).1
          (direct_calls-Served fresh aborts arrived s arrives returns short),
      parse_response-direct_calls j laws hs aborts codes (calls_of arrived) s
          (calls_fit arrived arrives) (values_answer j laws hs _ returns),
    )

    -- Given the JSON laws and a library that keeps the error codes, on a connection that no other
    -- thread shuts down and whose writes take every chunk: calls whose values fit their types,
    -- built by the client, arrive one after the other, each shorter than 2 ^ 31 bytes and in pieces
    -- that are not empty behind its size; the direct calls of the handlers one after the other
    -- return values, whose texts are shorter than 2 ^ 31 bytes, up to the last one, which throws a
    -- server exception other than ServerCloseSocketException, with a text shorter than 2 ^ 31
    -- bytes, or whose method is not known. Then the thread sends the results and the error, the
    -- client that parses them gets the results and that exception, and the thread returns with the
    -- flag still set: whatever follows on the stream is not read.
    pub serve_calls_failed :
        (last : Arrival j.Value) (x : ServerException)
        → IsArrival last
        → let (rs, s') = direct_calls j laws hs (calls_of arrived) s in
          (direct_call j laws hs last.0 s').0 ≡ throw (Exception.server x)
          → x ≢ ServerException.server_close_socket
          → length (build_error j (get_code x)) < 2 ^ 31
          → let text = build_error j (get_code x) in
            let texts = map (answer_text j) rs in
            (serve j fresh aborts hs
                (conn true
                  (arrivals (pieces_of arrived) (arrival last.1 rest))
                  (takes texts (takes (text ∷ []) ws))
                  sent)
                s
              ≡ (
                ok tt,
                conn true rest ws (sent ++ concat (map framed texts) ++ framed text),
                (direct_call j laws hs last.0 s').1,
              ))
            × (map (parse_response j aborts) texts ≡ rs)
            × (parse_response j aborts text ≡ throw (Exception.server x))
    serve_calls_failed last x a e o k = (
      serve_rejected j fresh aborts hs rest ws sent (pieces_of arrived)
          (map (answer_text j) (direct_calls j laws hs (calls_of arrived) s).0) s
          (direct_calls j laws hs (calls_of arrived) s).1 _ last.1 x
          (direct_calls-Served fresh aborts arrived s arrives returns short)
          (arrival-IsMessage last a) a.3
          (ap (λ t. answer j hs t (direct_calls j laws hs (calls_of arrived) s).1) a.1
            ∙ answer-direct_error j laws hs last.0 _ x a.0 e)
          o (build_error-ne-nil j laws (get_code x), k),
      parse_response-direct_calls j laws hs aborts codes (calls_of arrived) s
          (calls_fit arrived arrives) (values_answer j laws hs _ returns),
      parse_response-build_error j laws aborts x (codes x),
    )
