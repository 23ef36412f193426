-- ===== src/Server/Thread/Ending.antt =====
-- The thread of a connection has fuel enough: each round takes a read.
use json_rpc.Common.{
  ℕ, zero, suc, ◌<◌, ◌≡◌, refl, ap, ◌∙◌, arith, List, Bool, Option, length, inl, inr, Bool-cases,
}
use json_rpc.Errors.{Result, ok, stop, Stop, Exception, Result-cases}
use json_rpc.Json.{Json}
use json_rpc.Service.{Handlers}
use json_rpc.Server.{answer}
use json_rpc.Stream.{Stream}
use json_rpc.Connection.{send, recv}
use json_rpc.Connection.Reads.{reads-send, length-recv}
use json_rpc.Server.Thread.{Conn, look, responding, received, attempt, turned, run, serve}

stream-look : (c : Conn) → (look c).1.stream ≡ c.stream
unfolding look
stream-look c = ground arith

module _ (j : Json) (fresh : Option ℕ) (aborts : Bool) {S : Type 0} (hs : Handlers S j.Value) where
  reads-responding :
      (a : Result (List ℕ) × S) (c : Conn)
      → (responding j fresh aborts hs a c).1.stream.reads ≡ c.stream.reads
  unfolding responding
  reads-responding (stop e, s) c = refl
  reads-responding (ok text, s) c = elim (Result-cases (send aborts text c.stream).0) [
    | inl (e, p) ↦ rw (responding, p) (reads-send aborts text c.stream)
    | inr (u, p) ↦
        rw (responding, p) (ap (λ t. t.reads) (stream-look _) ∙ reads-send aborts text c.stream)
  ]

  length-received :
      (r : Result (List ℕ) × Stream) (c : Conn) (s : S) (n : ℕ)
      → ((msg : List ℕ) → r.0 ≡ ok msg → length r.1.reads < n)
      → (received j fresh aborts hs r c s).0 ≡ ok tt
      → length (received j fresh aborts hs r c s).1.stream.reads < n
  unfolding received
  length-received (stop e, stream) c s n h k = cc
  length-received (ok msg, stream) c s n h k = omega (
    arith,
    h msg refl,
    ap length (reads-responding (answer j hs msg s) (record c { stream = stream })),
  )

  length-attempt :
      (c : Conn) (s : S)
      → (attempt j fresh aborts hs c s).0 ≡ ok tt
      → length (attempt j fresh aborts hs c s).1.stream.reads < length c.stream.reads
  unfolding attempt
  length-attempt c s k =
      length-received (recv fresh c.stream) c s _ (λ msg e. length-recv fresh c.stream msg e) k

  turned-again :
      (r : Result (Unit {0}) × Conn × S) (again again' : Conn → S → Result (Unit {0}) × Conn × S)
      → (r.0 ≡ ok tt → again r.1 r.2 ≡ again' r.1 r.2)
      → turned j fresh aborts hs r again ≡ turned j fresh aborts hs r again'
  unfolding turned
  turned-again (ok _, c, s) again again' h = h refl
  turned-again (stop (Stop.thrown (Exception.server e)), c, s) again again' h = refl
  turned-again (stop _, c, s) again again' h = refl

  run-run :
      (fuel more : ℕ) (c : Conn) (s : S)
      → length c.stream.reads < fuel
      → length c.stream.reads < more
      → run j fresh aborts hs fuel c s ≡ run j fresh aborts hs more c s
  unfolding run
  run-run zero more c s h k = absurd (omega arith)
  run-run (suc fuel) zero c s h k = absurd (omega arith)
  run-run (suc fuel) (suc more) c s h k = elim (Bool-cases (look c).0) [
    | inr off ↦ rw off refl
    | inl on ↦ rw on (
        turned-again (attempt j fresh aborts hs (look c).1 s) _ _ λ e.
          let less = length-attempt (look c).1 s e in
          let same = ap (λ t. length t.reads) (stream-look c) in
          run-run fuel more _ _ (omega arith) (omega arith))
  ]

  -- The thread of a connection needs no more rounds than there are reads, and one: with any larger
  -- number it gives the same result, whatever is read and written and whenever another thread shuts
  -- it down.
  pub run-serve :
      (fuel : ℕ) (c : Conn) (s : S)
      → length c.stream.reads < fuel
      → run j fresh aborts hs fuel c s ≡ serve j fresh aborts hs c s
  unfolding serve
  run-serve fuel c s h = run-run fuel (suc (length c.stream.reads)) c s h (omega arith)
