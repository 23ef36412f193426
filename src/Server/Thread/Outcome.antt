-- ===== src/Server/Thread/Outcome.antt =====
-- How the thread of a connection leaves it.
use json_rpc.Common.{
  ℕ, zero, suc, ◌^◌, ◌<◌, ◌≡◌, ◌⊎◌, refl, ◌∙◌, arith, List, ◌++◌, true, false, Option, ◌==◌, ◌&&◌,
  length, inl, inr, Bool-cases,
}
use json_rpc.Errors.{Result, ok, stop, Stop, Exception, ServerException, get_code, socket_closed}
use json_rpc.Json.{Json, JsonLaws}
use json_rpc.Proto.{build_error}
use json_rpc.Service.{Handlers}
use json_rpc.Proto.RoundTrip.{build_error-ne-nil}
use json_rpc.Stream.Sending.{send_text_done}
use json_rpc.Connection.{send}
use json_rpc.Wire.{server_IsStrict}
use json_rpc.Server.Thread.{Conn, look, send_error, handled, attempt, turned, run, serve}
use json_rpc.Server.Thread.Serving.{framed, IsMessage}

module _ (j : Json) where
  -- The client has gone or is given up, or the last that was sent to it is the text of an error.
  abbrev pub Told : Conn → Type 0
  Told c =
      (c.connected ≡ false)
      ⊎ ((e : ServerException) × (before : List ℕ) × (c.stream.sent
            ≡ before ++ framed (build_error j (get_code e))))

  -- An error's text that was sent stands at the end.
  send_error-Told :
      (e : ServerException) (c : Conn)
      → IsMessage (build_error j (get_code e))
      → (send_error j true (get_code e) c.stream).0 ≡ ok tt
      → Told (record c { stream = (send_error j true (get_code e) c.stream).1 })
  unfolding send_error send
  send_error-Told e c m h = inr (
    e,
    c.stream.sent,
    send_text_done (build_error j (get_code e)) c.stream server_IsStrict m.0 m.1 h,
  )

  module _ (texts : (e : ServerException) → IsMessage (build_error j (get_code e)))
      (fresh : Option ℕ) {S : Type 0} (hs : Handlers S j.Value) where
    handled-Told :
        (e : ServerException) (c : Conn) (s : S)
        → (handled j fresh true hs e c s).0 ≡ ok tt
        → Told (handled j fresh true hs e c s).1
    unfolding handled
    handled-Told e c s h = elim (Bool-cases ((look c).0 && (get_code e == socket_closed))) [
      | inl q ↦ rw (handled, q) (inl refl)
      | inr q ↦ rw (handled, q) (send_error-Told e (look c).1 (texts e) (rw (handled, q) at h))
    ]

    turned-Told :
        (r : Result (Unit {0}) × Conn × S) (again : Conn → S → Result (Unit {0}) × Conn × S)
        → ((c : Conn) (s : S) → (again c s).0 ≡ ok tt → Told (again c s).1)
        → (turned j fresh true hs r again).0 ≡ ok tt
        → Told (turned j fresh true hs r again).1
    unfolding turned
    turned-Told (ok _, c, s) again k h = k c s h
    turned-Told (stop (Stop.thrown (Exception.server e)), c, s) again k h = handled-Told e c s h
    turned-Told (stop _, c, s) again k h = absurd cc

    look_flag : (c : Conn) → (look c).1.connected ≡ (look c).0
    unfolding look
    look_flag c = ground arith

    run-Told :
        (fuel : ℕ) (c : Conn) (s : S)
        → (run j fresh true hs fuel c s).0 ≡ ok tt
        → Told (run j fresh true hs fuel c s).1
    unfolding run
    run-Told zero c s h = absurd cc
    run-Told (suc fuel) c s h = elim (Bool-cases (look c).0) [
      | inl on ↦ rw on (
          turned-Told (attempt j fresh true hs (look c).1 s) (run j fresh true hs fuel)
            (run-Told fuel) (rw on at h))
      | inr off ↦ rw off (inl (look_flag c ∙ off))
    ]

  -- Given the JSON laws, LOG(FATAL) aborts, and the text of each server exception is shorter than 2
  -- ^ 31 bytes: if the thread of a connection returns without an exception, whatever was read and
  -- written and whenever another thread shut it down, then its flag is false, or the last that it
  -- has sent is the text of a server exception behind its size.
  pub serve-Told :
      (laws : JsonLaws j) (fresh : Option ℕ) {S : Type 0} (hs : Handlers S j.Value)
      → ((e : ServerException) → length (build_error j (get_code e)) < 2 ^ 31)
      → (c : Conn) (s : S) → (serve j fresh true hs c s).0 ≡ ok tt
      → Told (serve j fresh true hs c s).1
  unfolding serve
  serve-Told laws fresh hs short c s h =
      run-Told (λ e. (build_error-ne-nil j laws (get_code e), short e)) fresh hs
        (suc (length c.stream.reads)) c s h
