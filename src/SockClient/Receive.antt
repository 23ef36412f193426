-- ===== src/SockClient/Receive.antt =====
-- What SockClient::_recv returns: `result.assign(wr_buffer.c_str())` reads a buffer that nobody
-- ended with a zero byte.
use json_rpc.Common.{
  if◌then◌else◌, ℕ, zero, suc, ◌-◌, ◌^◌, ◌≤◌, ◌<◌, ◌≡◌, ◌≢◌, ◌⊎◌, refl, ap, ◌∙◌, List, [], ◌∷◌,
  ◌++◌, map, arith, Option, some, none, true, false, length, All, concat, append-nil,
}
use json_rpc.Common.Int.{pos}
use json_rpc.Errors.{Result, ok, stop, Stop, Fault, ◌>>=◌}
use json_rpc.Buffer.Memory.{Cells, c_text, new_cells}
use json_rpc.Buffer.Memory.Copy.{c_text-bytes}
use json_rpc.Buffer.Words.{kb, int_bytes}
use json_rpc.Buffer.Wron.Writing.{capacity}
use json_rpc.Stream.{Stream, Read, got, new_chunk}
use json_rpc.Stream.Receiving.{recv_loop_text}
use json_rpc.Stream.Size.{header-int_bytes}
use json_rpc.SockClient.{
  SockClient, is_uninit, send, send_and_response, exchange, reconnect, recv, receive, receive_body,
}

-- The cells of the buffer behind the text.
abbrev behind : Option ℕ → List ℕ → Cells
behind fresh text = new_cells fresh (capacity kb (length text) - length text)

module _ (fresh : Option ℕ) where
  receive_body_lem :
      (text : List ℕ) (pieces : List (List ℕ)) (rest : List Read)
      → text ≢ []
      → length text < 2 ^ 31
      → All (λ b. b ≢ 0) text
      → concat pieces ≡ text
      → All (λ p. p ≢ []) pieces
      → receive_body fresh (pos (length text)) (map got pieces ++ rest)
        ≡ ((c_text (behind fresh text) >>= λ bs. ok (text ++ bs)), rest)
  unfolding receive_body
  receive_body_lem [] pieces rest h k t c full = absurd (h refl)
  receive_body_lem (x ∷ xs) pieces rest h k t c full =
      let (wr, room, loop, held, z) =
        recv_loop_text true fresh (x ∷ xs) pieces rest new_chunk h k c full in
      rw (loop, held.begins)
        (ap (λ r. (r, rest))
          (c_text-bytes (x ∷ xs) room t
            ∙ ap (λ m. c_text m >>= λ bs. ok (x ∷ xs ++ bs))
                (held.unwritten
                  ∙ ap (new_cells fresh)
                      (omega (arith, held.fits, ap (λ n. capacity n (length (x ∷ xs))) z)))))

  receive_lem :
      (rs : List Read) (text : List ℕ) (pieces : List (List ℕ)) (rest : List Read)
      → rs ≡ got (int_bytes (pos (length text))) ∷ (map got pieces ++ rest)
      → text ≢ []
      → length text < 2 ^ 31
      → All (λ b. b ≢ 0) text
      → concat pieces ≡ text
      → All (λ p. p ≢ []) pieces
      → receive fresh rs ≡ ((c_text (behind fresh text) >>= λ bs. ok (text ++ bs)), rest)
  unfolding receive int_bytes
  receive_lem rs text pieces rest e h k t c full =
      rw (e, header-int_bytes (length text) k) (receive_body_lem text pieces rest h k t c full)

  -- What the client makes of a message without zero bytes, however it is cut: the text of the
  -- buffer, which goes on behind the message until a zero byte.
  recv-eq :
      (s : Stream) (text : List ℕ) (pieces : List (List ℕ)) (rest : List Read)
      → s.reads ≡ got (int_bytes (pos (length text))) ∷ (map got pieces ++ rest)
      → text ≢ []
      → length text < 2 ^ 31
      → All (λ b. b ≢ 0) text
      → concat pieces ≡ text
      → All (λ p. p ≢ []) pieces
      → recv fresh s
        ≡ ((c_text (behind fresh text) >>= λ bs. ok (text ++ bs)), record s { reads = rest })
  unfolding recv
  recv-eq s text pieces rest e h k t c full =
      rw (receive_lem s.reads text pieces rest e h k t c full)

c_text_zeroed : (n : ℕ) → 0 < n → c_text (new_cells (some 0) n) ≡ ok []
unfolding c_text
c_text_zeroed zero h = absurd (omega arith)
c_text_zeroed (suc n) h = refl

c_text_unwritten :
    (n : ℕ) → 0 < n → c_text (new_cells none n) ≡ stop (Stop.fault Fault.indeterminate)
unfolding c_text
c_text_unwritten zero h = absurd (omega arith)
c_text_unwritten (suc n) h = refl

c_text_no_room :
    (fresh : Option ℕ) (n : ℕ)
    → n ≡ 0
    → c_text (new_cells fresh n) ≡ stop (Stop.fault Fault.overrun)
unfolding c_text
c_text_no_room fresh zero e = refl
c_text_no_room fresh (suc n) e = absurd (omega arith)

module _ (s : Stream) (text : List ℕ) (pieces : List (List ℕ)) (rest : List Read)
    (arrives : s.reads ≡ got (int_bytes (pos (length text))) ∷ (map got pieces ++ rest))
    (some_text : text ≢ []) (fits : length text < 2 ^ 31) (no_zero : All (λ b. b ≢ 0) text)
    (cut : concat pieces ≡ text) (full : All (λ p. p ≢ []) pieces) where
  -- With zeroed memory the client receives the text, if it has no zero byte, is shorter than 1024
  -- bytes or longer than that and shorter than 2048, is not empty, and comes behind its size in
  -- pieces that are not empty.
  pub recv_zeroed :
      (length text < 1024) ⊎ ((1024 < length text) × (length text < 2048))
      → recv (some 0) s ≡ (ok text, record s { reads = rest })
  recv_zeroed short =
      recv-eq (some 0) s text pieces rest arrives some_text fits no_zero cut full
      ∙ rw (
        c_text_zeroed (capacity kb (length text) - length text) (ground (arith, short)),
        append-nil text,
      )

  -- Whatever its memory held before, the client reads past the end of its buffer at a text without
  -- zero bytes of 1024 bytes, or of 2048 or more below 2 ^ 31, that comes behind its size in pieces
  -- that are not empty.
  pub recv_overrun :
      (fresh : Option ℕ)
      → (length text ≡ 1024) ⊎ (2048 ≤ length text)
      → recv fresh s ≡ (stop (Stop.fault Fault.overrun), record s { reads = rest })
  recv_overrun fresh long =
      recv-eq fresh s text pieces rest arrives some_text fits no_zero cut full
      ∙ rw (c_text_no_room fresh (capacity kb (length text) - length text) (ground (arith, long)))

  -- With memory as C++ leaves it, the client reads a byte that nobody wrote at a text without zero
  -- bytes that is not empty, shorter than 1024 bytes or longer than that and shorter than 2048, and
  -- comes behind its size in pieces that are not empty.
  pub recv_indeterminate :
      (length text < 1024) ⊎ ((1024 < length text) × (length text < 2048))
      → recv none s ≡ (stop (Stop.fault Fault.indeterminate), record s { reads = rest })
  recv_indeterminate short =
      recv-eq none s text pieces rest arrives some_text fits no_zero cut full
      ∙ rw (c_text_unwritten (capacity kb (length text) - length text) (ground (arith, short)))

-- When the send has returned, the answer is received.
exchange-sent :
    (fresh : Option ℕ) (msg : List ℕ) (c : SockClient) (s s' : Stream) (r : Result (List ℕ))
    → send msg c.stream ≡ (ok tt, s)
    → recv fresh s ≡ (r, s')
    → exchange fresh msg (ok tt, c) ≡ (r, record c { net = record c.net { stream = s' } })
unfolding exchange
exchange-sent fresh msg c s s' r w e =
    ap
      (λ (p : Result (Unit {0}) × Stream). elim p.0 as (λ _. Result (List ℕ) × SockClient) [
        | stop e' ↦ (stop e', record c { net = record c.net { stream = p.1 } })
        | ok _ ↦
            ((recv fresh p.1).0, record c { net = record c.net { stream = (recv fresh p.1).1 } })
      ])
      w
    ∙ ap (λ p. (p.0, record c { net = record c.net { stream = p.1 } })) e

-- A message is sent over the socket that there is, and the answer received.
pub send_and_response-connected :
    (fresh : Option ℕ) (msg : List ℕ) (c : SockClient) (s s' : Stream) (r : Result (List ℕ))
    → is_uninit c.sock ≡ false
    → send msg c.stream ≡ (ok tt, s)
    → recv fresh s ≡ (r, s')
    → send_and_response fresh msg c ≡ (r, record c { net = record c.net { stream = s' } })
unfolding send_and_response
send_and_response-connected fresh msg c s s' r u w e =
    ap (λ b. exchange fresh msg (if b then reconnect c else (ok tt, c))) u
    ∙ exchange-sent fresh msg c s s' r w e
