-- ===== src/Server/Rpc.antt =====
-- A remote call from end to end: what the client makes of the server's answer to its request.
use json_rpc.Common.{
  ℕ, ◌≡◌, ◌≢◌, refl, ap, ◌∙◌, Bool, true, List, [], ◌∷◌, Option, none, some, Option-cases, inl, inr,
}
use json_rpc.Common.Int.{ℤ, pos}
use json_rpc.Errors.{Result, ok, stop, Stop, Exception, ServerException, throw, get_code, ◌>>=◌}
use json_rpc.Json.{Json, JsonLaws}
use json_rpc.Request.{Request}
use json_rpc.Proto.{build_request, parse_request, parse_response, result}
use json_rpc.Proto.RoundTrip.{
  Fits, received, build_request-ne-nil, parse_request-build_request, parse_response-build_error,
  parse_response-build_response,
}
use json_rpc.Proto.Rejects.{parse_request_total}
use json_rpc.Service.{Handler, Handlers, find, caught}
use json_rpc.Service.Dispatch.{on_request-missing, on_request-found}
use json_rpc.Server.{answer, reply, or_error, dispatched, responded}

module _ (j : Json) where
  -- What a caller of the handler itself would see: its result, as an object with the member
  -- "result", or its exception, where one of the serializer is a mismatch of the parameters.
  abbrev pub outcome : Result j.Value → Result j.Value
  outcome (ok content) = ok (j.value (j.put j.new_object result content))
  outcome (stop (Stop.thrown Exception.serialize_fail)) =
      throw (Exception.server ServerException.server_param_mismatch)
  outcome (stop s) = stop s

  -- A direct call of the method with the number id.
  abbrev pub direct :
      {S : Type 0} → Option (Handler S j.Value) → Request j.Value → S → Result j.Value × S
  direct none request s = (throw (Exception.server ServerException.server_method_not_found), s)
  direct (some handler) request s = let (r, s') = handler s request in (outcome r, s')

module _ (j : Json) {S : Type 0} (hs : Handlers S j.Value) where
  pub answer-dispatched :
      (msg : List ℕ) (s : S)
      → msg ≢ []
      → answer j hs msg s ≡ dispatched j hs (parse_request j msg) s
  unfolding answer
  answer-dispatched [] s h = absurd (h refl)
  answer-dispatched (b ∷ bs) s h = refl

module _ (j : Json) (laws : JsonLaws j) (aborts : Bool)
    (codes : (e : ServerException) → j.keeps (pos (get_code e)) ≡ true) {S : Type 0}
    (hs : Handlers S j.Value) where
  read_error_back :
      (e : ServerException)
      → (or_error j hs (throw (Exception.server e)) >>= parse_response j aborts)
        ≡ throw (Exception.server e)
  unfolding or_error
  read_error_back e = parse_response-build_error j laws aborts e (codes e)

  read_back :
      (request : Request j.Value) (s : S) (r : Result j.Value)
      → (or_error j hs (responded j hs (caught request r, s)).0 >>= parse_response j aborts)
        ≡ outcome j r
  unfolding responded caught or_error
  read_back request s (ok content) = (parse_response-build_response j laws aborts content).0
  read_back request s (stop (Stop.thrown Exception.serialize_fail)) =
      read_error_back ServerException.server_param_mismatch
  read_back request s (stop (Stop.thrown (Exception.server e))) = read_error_back e
  read_back request s (stop _) = refl

  state_kept :
      (request : Request j.Value) (s : S) (r : Result j.Value)
      → (responded j hs (caught request r, s)).1 ≡ s
  unfolding responded caught
  state_kept request s (ok content) = refl
  state_kept request s (stop (Stop.thrown Exception.serialize_fail)) = refl
  state_kept request s (stop _) = refl

  -- The answer read by the client, and the new state of the service.
  abbrev seen : Result (List ℕ) × S → Result j.Value × S
  seen (r, s) = (or_error j hs r >>= parse_response j aborts, s)

  seen-dispatched :
      (request : Request j.Value) (s : S)
      → seen (dispatched j hs (ok request) s) ≡ direct j (find request.handlerid hs) request s
  unfolding dispatched
  seen-dispatched request s = elim (Option-cases (find request.handlerid hs)) [
    | inl e ↦
        rw (e, on_request-missing hs request s e)
          (λ i. (read_error_back ServerException.server_method_not_found i, s))
    | inr (handler, e) ↦
        rw (e, on_request-found hs request s handler e)
          (λ i. (
            read_back request (handler s request).1 (handler s request).0 i,
            state_kept request (handler s request).1 (handler s request).0 i,
          ))
  ]

  -- Given the JSON laws and a library that keeps the error codes: a request whose values fit their
  -- types, built by the client, answered by the server and its answer parsed by the client, is a
  -- direct call of the handler registered under the method's number, with the same outcome and the
  -- same new state of the service. The client gets the handler's result, or the server exception
  -- that it threw, a failed serialization as ServerParamMismatchException; it gets
  -- ServerMethodNotFoundException if there is no such handler. Where the handler ends in any other
  -- way, so does the server.
  pub rpc_lem :
      (clientno serverno messageid time : ℤ) (method_hash : ℕ) (content : j.Value) (s : S)
      → Fits j laws clientno serverno messageid time method_hash content
      → let request = received j laws clientno serverno messageid time method_hash content in
        let (text, s') =
          reply j hs (build_request j clientno serverno messageid time method_hash content) s in
        ◌≡◌ {A = Result j.Value × S}
          (text >>= parse_response j aborts, s')
          (direct j (find method_hash hs) request s)
  unfolding reply
  rpc_lem c sn m t h content s f =
      ap seen (
        answer-dispatched j hs _ s (build_request-ne-nil j laws c sn m t h content)
        ∙ ap (λ r. dispatched j hs r s) (parse_request-build_request j laws c sn m t h content f))
      ∙ seen-dispatched (received j laws c sn m t h content) s

  -- Given the JSON laws and a library that keeps the error codes: a message that the server does
  -- not parse as a request never reaches a handler. The client that reads the answer throws
  -- ServerBadMessageException if the message is empty and ServerJsonNotParsedException otherwise,
  -- and the service stays as it was.
  pub rpc_rejected :
      (msg : List ℕ) (s : S)
      → ¬ ((r : Request j.Value) × (parse_request j msg ≡ ok r))
      → let (text, s') = reply j hs msg s in
        ◌≡◌ {A = Result j.Value × S}
          (text >>= parse_response j aborts, s')
          (
            throw (
                Exception.server (elim msg [
                  | [] ↦ ServerException.server_bad_message
                  | _ ∷ _ ↦ ServerException.server_json_not_parsed
                ])),
            s,
          )
  unfolding reply answer dispatched
  rpc_rejected [] s refused = λ i. (read_error_back ServerException.server_bad_message i, s)
  rpc_rejected (b ∷ bs) s refused = elim (parse_request_total j (b ∷ bs)) [
    | inl found ↦ absurd (refused found)
    | inr e ↦ rw e (λ i. (read_error_back ServerException.server_json_not_parsed i, s))
  ]
