-- ===== src/Server/Calls.antt =====
-- Calls of a client one after the other: what the handlers make of them, and the texts that go over
-- the wire for them.
use json_rpc.Common.{
  ℕ, ◌≡◌, ◌≢◌, refl, sym, ap, ◌∙◌, Bool, true, false, List, [], ◌∷◌, map, Option-cases, inl, inr,
  All,
}
use json_rpc.Common.Int.{ℤ, pos}
use json_rpc.Errors.{Result, ok, stop, Stop, Exception, ServerException, throw, get_code, ◌>>=◌}
use json_rpc.Json.{Json, JsonLaws}
use json_rpc.Request.{Request}
use json_rpc.Proto.{build_request, build_error, build_response, parse_response}
use json_rpc.Proto.RoundTrip.{Fits, received, build_request-ne-nil, parse_request-build_request}
use json_rpc.Service.{Handlers, find, caught}
use json_rpc.Service.Dispatch.{on_request-missing, on_request-found}
use json_rpc.Server.{answer, reply, or_error, dispatched, responded}
use json_rpc.Server.Rpc.{outcome, direct, answer-dispatched, rpc_lem}

-- What a client hands to Proto::build_request.
pub record Call (Value : Type 0) : Type 0 where
  pub clientno : ℤ
  pub serverno : ℤ
  pub messageid : ℤ
  pub time : ℤ
  pub method : ℕ
  pub content : Value

-- A call and the pieces in which its text arrives.
abbrev pub Arrival : Type 0 → Type 0
Arrival Value = Call Value × List (List ℕ)

abbrev pub calls_of : {Value : Type 0} → List (Arrival Value) → List (Call Value)
calls_of = map (λ (c, _). c)

abbrev pub pieces_of : {Value : Type 0} → List (Arrival Value) → List (List (List ℕ))
pieces_of = map (λ (_, pieces). pieces)

module _ (j : Json) where
  abbrev pub request_text : Call j.Value → List ℕ
  request_text c = build_request j c.clientno c.serverno c.messageid c.time c.method c.content

  -- Whether a result can be sent back: a value, or a server exception.
  abbrev pub is_answer : Result j.Value → Bool
  is_answer (ok v) = true
  is_answer (stop (Stop.thrown (Exception.server e))) = true
  is_answer (stop x) = false

  abbrev pub is_value : Result j.Value → Bool
  is_value (ok v) = true
  is_value (stop x) = false

  -- The text of a result on the wire.
  abbrev pub answer_text : Result j.Value → List ℕ
  answer_text (ok v) = j.dumps v
  answer_text (stop (Stop.thrown (Exception.server e))) = build_error j (get_code e)
  answer_text (stop x) = []

module _ (j : Json) (laws : JsonLaws j) {S : Type 0} (hs : Handlers S j.Value) where
  abbrev pub CallFits : Call j.Value → Type 0
  CallFits c = Fits j laws c.clientno c.serverno c.messageid c.time c.method c.content

  -- A direct call of the handler of the call's method, and such calls one after the other.
  abbrev pub direct_call : Call j.Value → S → Result j.Value × S
  direct_call c s =
      direct j (find c.method hs)
        (received j laws c.clientno c.serverno c.messageid c.time c.method c.content) s

  unfoldable pub direct_calls : List (Call j.Value) → S → List (Result j.Value) × S
  direct_calls [] s = ([], s)
  direct_calls (c ∷ calls) s =
      let (r, s') = direct_call c s in let (rs, s'') = direct_calls calls s' in (r ∷ rs, s'')

  -- What the server's answer is, as a text.
  abbrev texted : Result j.Value → Result (List ℕ)
  texted (ok v) = ok (j.dumps v)
  texted (stop x) = stop x

  texted-outcome :
      (request : Request j.Value) (s : S) (r : Result j.Value)
      → responded j hs (caught request r, s) ≡ (texted (outcome j r), s)
  unfolding responded caught build_response
  texted-outcome request s (ok content) = refl
  texted-outcome request s (stop (Stop.thrown Exception.serialize_fail)) = refl
  texted-outcome request s (stop (Stop.thrown (Exception.server e))) = refl
  texted-outcome request s (stop _) = refl

  dispatched-direct :
      (request : Request j.Value) (s : S)
      → let (r, s') = direct j (find request.handlerid hs) request s in
        dispatched j hs (ok request) s ≡ (texted r, s')
  unfolding dispatched responded
  dispatched-direct request s = elim (Option-cases (find request.handlerid hs)) [
    | inl e ↦ rw (e, on_request-missing hs request s e) refl
    | inr (handler, e) ↦
        rw (e, on_request-found hs request s handler e)
          (texted-outcome request (handler s request).1 (handler s request).0)
  ]

  -- The server's answer to the text of a call is the text of the direct call's result.
  pub answer-direct :
      (c : Call j.Value) (s : S)
      → CallFits c
      → let (r, s') = direct_call c s in answer j hs (request_text j c) s ≡ (texted r, s')
  answer-direct c s f =
      answer-dispatched j hs (request_text j c) s
        (build_request-ne-nil j laws c.clientno c.serverno c.messageid c.time c.method c.content)
      ∙ ap (λ r. dispatched j hs r s)
          (parse_request-build_request j laws c.clientno c.serverno c.messageid c.time c.method
            c.content f)
      ∙ dispatched-direct _ s

  -- The same for a call that returns.
  pub answer-direct_value :
      (c : Call j.Value) (s : S)
      → CallFits c
      → let (r, s') = direct_call c s in
        is_value j r ≡ true → answer j hs (request_text j c) s ≡ (ok (answer_text j r), s')
  answer-direct_value c s f e =
      answer-direct c s f ∙ ap (λ t. (t, (direct_call c s).1)) (value_text (direct_call c s).0 e)
    where
      value_text : (r : Result j.Value) → is_value j r ≡ true → texted r ≡ ok (answer_text j r)
      value_text (ok v) e = refl
      value_text (stop x) e = absurd cc

  -- And for one that throws a server exception.
  pub answer-direct_error :
      (c : Call j.Value) (s : S) (x : ServerException)
      → CallFits c
      → (direct_call c s).0 ≡ throw (Exception.server x)
      → answer j hs (request_text j c) s ≡ (throw (Exception.server x), (direct_call c s).1)
  answer-direct_error c s x f e = answer-direct c s f ∙ ap (λ r. (texted r, (direct_call c s).1)) e

  outcome-ne-nil :
      (r : Result j.Value) → is_answer j (outcome j r) ≡ true → answer_text j (outcome j r) ≢ []
  unfolding build_error
  outcome-ne-nil (ok v) e = laws.dumps-ne-nil _
  outcome-ne-nil (stop (Stop.thrown Exception.serialize_fail)) e = laws.dumps-ne-nil _
  outcome-ne-nil (stop (Stop.thrown (Exception.server x))) e = laws.dumps-ne-nil _
  outcome-ne-nil (stop x) e = absurd cc

  -- No answer is empty.
  pub answer_text-ne-nil :
      (c : Call j.Value) (s : S)
      → is_answer j (direct_call c s).0 ≡ true
      → answer_text j (direct_call c s).0 ≢ []
  unfolding build_error
  answer_text-ne-nil c s = elim (Option-cases (find c.method hs)) [
    | inl q ↦ rw q (λ e. laws.dumps-ne-nil _)
    | inr (handler, q) ↦ rw q (outcome-ne-nil (handler s _).0)
  ]

  -- A value is an answer.
  pub value_answers : (r : Result j.Value) → is_value j r ≡ true → is_answer j r ≡ true
  value_answers (ok v) e = refl
  value_answers (stop x) e = absurd cc

  pub values_answer :
      (rs : List (Result j.Value))
      → All (λ r. is_value j r ≡ true) rs
      → All (λ r. is_answer j r ≡ true) rs
  values_answer [] e = tt
  values_answer (r ∷ rs) e = (value_answers r e.0, values_answer rs e.1)

  -- The text that is sent back is that of the direct call's result, if it can be sent.
  pub reply-direct :
      (c : Call j.Value) (s : S)
      → CallFits c
      → let (r, s') = direct_call c s in
        is_answer j r ≡ true → reply j hs (request_text j c) s ≡ (ok (answer_text j r), s')
  unfolding reply or_error
  reply-direct c s f e =
      ap (λ (t, s'). (or_error j hs t, s')) (answer-direct c s f)
      ∙ ap (λ t. (t, (direct_call c s).1)) (spoken (direct_call c s).0 e)
    where
      spoken :
          (r : Result j.Value)
          → is_answer j r ≡ true
          → or_error j hs (texted r) ≡ ok (answer_text j r)
      spoken (ok v) e = refl
      spoken (stop (Stop.thrown (Exception.server x))) e = refl
      spoken (stop x) e = absurd cc

  -- The client reads back what was sent.
  pub parse_response-answer_text :
      (aborts : Bool)
      → ((e : ServerException) → j.keeps (pos (get_code e)) ≡ true)
      → (c : Call j.Value) (s : S) → CallFits c
      → let (r, s') = direct_call c s in
        is_answer j r ≡ true → parse_response j aborts (answer_text j r) ≡ r
  parse_response-answer_text aborts codes c s f e =
      sym (ap (λ (t, _). t >>= parse_response j aborts) (reply-direct c s f e))
      ∙ ap (λ (r, _). r)
          (rpc_lem j laws aborts codes hs c.clientno c.serverno c.messageid c.time c.method
            c.content s f)

  -- The texts of any calls, read by the client, are the results of the direct calls.
  pub parse_response-direct_calls :
      (aborts : Bool)
      → ((e : ServerException) → j.keeps (pos (get_code e)) ≡ true)
      → (calls : List (Call j.Value)) (s : S) → All CallFits calls
      → let (rs, s') = direct_calls calls s in
        All (λ r. is_answer j r ≡ true) rs
        → map (parse_response j aborts) (map (answer_text j) rs) ≡ rs
  unfolding direct_calls
  parse_response-direct_calls aborts codes [] s f e = refl
  parse_response-direct_calls aborts codes (c ∷ calls) s f e = λ i.
      parse_response-answer_text aborts codes c s f.0 e.0 i
      ∷ parse_response-direct_calls aborts codes calls (direct_call c s).1 f.1 e.1 i
