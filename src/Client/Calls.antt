-- ===== src/Client/Calls.antt =====
-- What a caller of AbstractClient::call gets, by the behaviour of the connector.
use json_rpc.Common.{
  ℕ, suc, ◌+◌, ◌^◌, ◌<◌, ◌≡◌, ◌≢◌, refl, ap, ◌∙◌, arith, List, Bool, Option, none, some, ltb,
  lt→leb, if◌then◌else◌,
}
use json_rpc.Common.Int.{ℤ, pos}
use json_rpc.Errors.{Result, ok, Exception, ServerException, throw}
use json_rpc.Json.{Json}
use json_rpc.Proto.{build_request, parse_response}
use json_rpc.Client.{
  Connector, Reaction, reconnects, passes, catch_void, catch_with, round, call_loop, max_try,
  AbstractClient, parse_void, parse_with, finished, call_by, call_void, call_with,
}
use json_rpc.Client.Retry.{Fails, round-ok, call_loop-Fails, call_loop-endless, call_loop-passes}

module _ (j : Json) (aborts : Bool) {S : Type 0} (c : Connector S) (time : ℤ) (method_hash : ℕ)
    (content : j.Value) (client : AbstractClient S) (few : client.msg_id + 1 < 2 ^ 31) where
  -- The message of the call.
  abbrev pub message : List ℕ
  message = build_request j client.clientno (pos 0) (pos client.msg_id) time method_hash content

  -- The client after the call, with the connector in state s.
  abbrev pub after : S → AbstractClient S
  after s = record client { conn = s; msg_id = client.msg_id + 1 }

  pub call_by-message :
      {A : Type 0} (catch : Exception → Reaction) (parse : List ℕ → Result A) (fuel : ℕ)
      → call_by j aborts c catch parse fuel time method_hash content client
        ≡ finished j aborts c client (call_loop c catch parse message fuel 0 client.conn)
  unfolding call_by
  call_by-message catch parse fuel = rw (call_by, lt→leb (2 ^ 31) (client.msg_id + 1) few)

  pub finished-ok :
      {A : Type 0} (a : A) (n : ℕ) (s : S)
      → finished j aborts c client (some (record { outcome = ok a; tried = n; conn = s }))
        ≡ some (
          if ltb max_try n then throw (Exception.runtime_error "PRC call failed") else ok a,
          after s,
        )
  unfolding finished
  finished-ok a n s = refl

  call_by-Fails :
      {A : Type 0} (catch : Exception → Reaction) (parse : List ℕ → Result A) (n fuel : ℕ)
      (s s' : S) (text : List ℕ) (a : A)
      → Fails c catch parse message n client.conn s
      → c.send_and_response message s ≡ (ok text, s')
      → parse text ≡ ok a
      → call_by j aborts c catch parse (n + suc fuel) time method_hash content client
        ≡ some (
          if ltb max_try n then throw (Exception.runtime_error "PRC call failed") else ok a,
          after s',
        )
  call_by-Fails catch parse n fuel s s' text a f sent read =
      call_by-message catch parse (n + suc fuel)
      ∙ ap (finished j aborts c client) (
          (call_loop-Fails c catch parse message n 0 client.conn s f).0 fuel s' a
            (round-ok c catch parse message s s' text a sent read)
          ∙ (let z : 0 + n ≡ n = omega arith in rw z))
      ∙ finished-ok a n s'

  -- While the message number fits an int: a call with a result whose sending fails n times with an
  -- exception that the loop counts, and is then answered by a text that parses, is settled in n + 1
  -- rounds. It returns the answer if n is at most 8, and else throws the answer away and throws
  -- runtime_error; the message number goes up by one.
  pub call_with-Fails :
      {R : Type 0} (decode : Option j.Value → Result R) (n fuel : ℕ) (s s' : S) (text : List ℕ)
      (r : R)
      → Fails c catch_with (parse_with j aborts c decode) message n client.conn s
      → c.send_and_response message s ≡ (ok text, s')
      → parse_with j aborts c decode text ≡ ok r
      → call_with j aborts c decode (n + suc fuel) time method_hash content client
        ≡ some
            (if ltb 8 n then throw (Exception.runtime_error "PRC call failed") else ok r, after s')
  unfolding call_with
  call_with-Fails decode n fuel s s' text r f sent read =
      call_by-Fails catch_with (parse_with j aborts c decode) n fuel s s' text r f sent read

  -- While the message number fits an int: for any n, 8 or more included, a call with a result whose
  -- sending has failed n times with an exception that the loop counts has not ended after these n
  -- rounds.
  pub call_with_unbounded :
      {R : Type 0} (decode : Option j.Value → Result R) (n : ℕ) (s : S)
      → Fails c catch_with (parse_with j aborts c decode) message n client.conn s
      → call_with j aborts c decode n time method_hash content client ≡ none
  unfolding call_with finished
  call_with_unbounded decode n s f =
      call_by-message catch_with (parse_with j aborts c decode) n
      ∙ ap (finished j aborts c client) (
          (call_loop-Fails c catch_with (parse_with j aborts c decode) message n 0 client.conn s
              f).1
            n (omega arith))

  -- While the message number fits an int: if, from the first state of the connector on and after
  -- each reconnect, the call without a result is answered by some server error and the reconnect
  -- succeeds, then the call has not returned after any number of rounds.
  pub call_void_endless :
      (P : S → Type 0)
      → ((s : S)
          → P s
          → (text : List ℕ) × (e : ServerException) × (s' : S) × (s'' : S) × (c.send_and_response
                message s
              ≡ (ok text, s'))
            × (parse_response j aborts text ≡ throw (Exception.server e))
            × (c.reconnect s' ≡ (ok tt, s''))
            × P s'')
      → P client.conn
      → (fuel : ℕ) → call_void j aborts c fuel time method_hash content client ≡ none
  unfolding call_void finished
  call_void_endless P step p fuel =
      call_by-message catch_void (parse_void j aborts c) fuel
      ∙ ap (finished j aborts c client) (
          call_loop-endless c catch_void (parse_void j aborts c) message P
            (λ s q.
              let (text, e, s', s'', sent, read, again, q') = step s q in
              (Exception.server e, s', s'', refused s s' text e sent read, caught e, again, q'))
            fuel 0 client.conn p)
    where
      caught : (e : ServerException) → catch_void (Exception.server e) ≡ reconnects
      caught e = unfold catch_void in refl

      refused :
          (s s' : S) (text : List ℕ) (e : ServerException)
          → c.send_and_response message s ≡ (ok text, s')
          → parse_response j aborts text ≡ throw (Exception.server e)
          → round c catch_void (parse_void j aborts c) message s ≡ (throw (Exception.server e), s')
      refused s s' text e sent read = unfold round parse_void in rw (sent, read)

  -- While the message number fits an int: a call with a result that is answered by a server error
  -- other than ServerCloseSocketException throws that error after this one round, without a
  -- reconnect.
  pub call_with_rejected :
      {R : Type 0} (decode : Option j.Value → Result R) (fuel : ℕ) (text : List ℕ)
      (e : ServerException) (s' : S)
      → c.send_and_response message client.conn ≡ (ok text, s')
      → parse_response j aborts text ≡ throw (Exception.server e)
      → e ≢ ServerException.server_close_socket
      → call_with j aborts c decode (suc fuel) time method_hash content client
        ≡ some (throw (Exception.server e), after s')
  unfolding call_with finished
  call_with_rejected decode fuel text e s' sent read other =
      call_by-message catch_with (parse_with j aborts c decode) (suc fuel)
      ∙ ap (finished j aborts c client) (
          call_loop-passes c catch_with (parse_with j aborts c decode) message fuel 0 client.conn s'
            (Exception.server e) (unfold round parse_with in rw (sent, read)) (passed e other))
    where
      passed :
          (x : ServerException)
          → x ≢ ServerException.server_close_socket
          → catch_with (Exception.server x) ≡ passes
      passed ServerException.server_close_socket h = absurd (h refl)
      passed ServerException.server_bad_message h = unfold catch_with in refl
      passed ServerException.server_method_not_found h = unfold catch_with in refl
      passed ServerException.server_json_not_parsed h = unfold catch_with in refl
      passed ServerException.server_param_mismatch h = unfold catch_with in refl
