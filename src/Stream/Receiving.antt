-- ===== src/Stream/Receiving.antt =====
-- Receiving a text over a socket, however the stream is cut into reads.
use native.Mathlib.Nat.{add-zero}
use json_rpc.Common.{
  ℕ, zero, suc, if◌then◌else◌, ◌+◌, ◌^◌, ◌<◌, ◌≡◌, ◌≢◌, refl, sym, subst, ap, ◌∙◌, List, [], ◌∷◌,
  ◌++◌, arith, Bool, ◌==◌, map, Option, length, replicate, All, concat, append_assoc, append-nil,
  length-append, ne→==, eq→==, drop,
}
use json_rpc.Errors.{ok, stop, Stop}
use json_rpc.Buffer.Memory.{Cells, new_cells}
use json_rpc.Buffer.Words.{kb}
use json_rpc.Buffer.Wron.{WronBuffer, make_wron}
use json_rpc.Buffer.Wron.Writing.{Holds, write_lem, make_wron-Holds}
use json_rpc.Stream.{Read, got, absorb, recv_loop, fill}

pub length-pos : (q : List ℕ) → q ≢ [] → 0 < length q
length-pos [] h = absurd (h refl)
length-pos (x ∷ xs) h = omega arith

module _ (looks : Bool) (fresh : Option ℕ) where
  -- One round appends what was read and counts it.
  absorb_lem :
      (bs ys : List ℕ) (chunk room : Cells) (wr : WronBuffer)
      → Holds fresh wr bs room
      → length bs + length ys < 2 ^ 31
      → (wr' : WronBuffer) × (room' : Cells) × (absorb fresh ys chunk wr (length bs)
          ≡ ok (wr', length bs + length ys))
        × Holds fresh wr' (bs ++ ys) room'
        × (wr'.size ≡ wr.size)
  unfolding absorb
  absorb_lem bs ys chunk room wr h k =
      let (wr', room', e, h', z) =
        write_lem fresh wr bs ys room (drop (length ys) chunk) (length ys) h refl k in
      (wr', room', rw e (ground arith), h', z)

  recv_loop-got :
      (size : ℕ) (ys : List ℕ) (rs : List Read) (chunk : Cells) (wr wr' : WronBuffer)
      (curr curr' : ℕ)
      → absorb fresh ys chunk wr curr ≡ ok (wr', curr')
      → recv_loop looks fresh size (got ys ∷ rs) chunk wr curr ≡ (
          if curr' == size
          then (ok wr', rs)
          else recv_loop looks fresh size rs (fill ys chunk) wr' curr')
  unfolding recv_loop
  recv_loop-got size ys rs chunk wr wr' curr curr' e = rw (recv_loop, e)

  -- Reads that together bring the rest of the message, none of them empty, are gathered whole and
  -- in order, and the loop ends with the last of them.
  pub recv_loop_lem :
      (size : ℕ) (pieces : List (List ℕ)) (bs : List ℕ) (rest : List Read) (chunk room : Cells)
      (wr : WronBuffer)
      → Holds fresh wr bs room
      → pieces ≢ []
      → All (λ p. p ≢ []) pieces
      → length bs + length (concat pieces) ≡ size
      → size < 2 ^ 31
      → (wr' : WronBuffer) × (room' : Cells) × (recv_loop looks fresh size
            (map got pieces ++ rest)
            chunk
            wr
            (length bs)
          ≡ (ok wr', rest))
        × Holds fresh wr' (bs ++ concat pieces) room'
        × (wr'.size ≡ wr.size)
  recv_loop_lem size [] bs rest chunk room wr h some_piece full e k = absurd (some_piece refl)
  recv_loop_lem size (p ∷ []) bs rest chunk room wr h some_piece full e k =
      let (wr', room', step, h', z) = absorb_lem bs p chunk room wr h (omega (arith, total)) in
      (
        wr',
        room',
        recv_loop-got size p rest chunk wr wr' _ _ step
            ∙ rw (eq→== (length bs + length p) size (omega (arith, total))),
        subst (λ t. Holds fresh wr' (bs ++ t) room') (sym (append-nil p)) h',
        z,
      )
    where
      total : length bs + length p ≡ size
      total = omega (arith, ap length (append-nil p), e)
  recv_loop_lem size (p ∷ q ∷ qs) bs rest chunk room wr h some_piece full e k =
      let (wr', room', step, h', z) = absorb_lem bs p chunk room wr h (omega (arith, total)) in
      let (wr'', room'', loop, h'', z') =
        recv_loop_lem size (q ∷ qs) (bs ++ p) rest (fill p chunk) room' wr' h' (λ r. cc) full.1
          (omega (arith, length-append bs p, total)) k in
      (
        wr'',
        room'',
        recv_loop-got size p (map got (q ∷ qs) ++ rest) chunk wr wr' _ _ step
            ∙ rw
                (
                  ne→== (length bs + length p) size (λ r. omega (arith, total, more, r)),
                  sym (length-append bs p),
                )
                loop,
        subst (λ t. Holds fresh wr'' t room'') (append_assoc bs p (concat (q ∷ qs))) h'',
        z' ∙ z,
      )
    where
      total : length bs + length p + length (concat (q ∷ qs)) ≡ size
      total = omega (arith, length-append p (concat (q ∷ qs)), e)

      more : 0 < length (concat (q ∷ qs))
      more = omega (arith, length-append q (concat qs), length-pos q full.1.0)

  -- At the end of the stream read returns nothing, again and again: a message that is cut off is
  -- waited for without end, however often read is called.
  pub recv_loop_cut_off :
      (size k : ℕ) (bs : List ℕ) (chunk room : Cells) (wr : WronBuffer)
      → Holds fresh wr bs room
      → length bs < size
      → size < 2 ^ 31
      → recv_loop looks fresh size (replicate k (got [])) chunk wr (length bs)
        ≡ (stop Stop.waiting, [])
  recv_loop_cut_off size zero bs chunk room wr h l z = unfold recv_loop in refl
  recv_loop_cut_off size (suc k) bs chunk room wr h l z =
      let (wr', room', step, h', _) = absorb_lem bs [] chunk room wr h (omega arith) in
      recv_loop-got size [] (replicate k (got [])) chunk wr wr' _ _ step
      ∙ rw (ne→== (length bs + 0) size (λ r. omega (arith, r)), add-zero)
          (recv_loop_cut_off size k bs _ room' wr'
            (subst (λ t. Holds fresh wr' t room') (append-nil bs) h') l z)

-- A whole text from the beginning: the buffer that the loop leaves holds it.
pub recv_loop_text :
    (looks : Bool) (fresh : Option ℕ) (text : List ℕ) (pieces : List (List ℕ)) (rest : List Read)
    (chunk : Cells)
    → text ≢ []
    → length text < 2 ^ 31
    → concat pieces ≡ text
    → All (λ p. p ≢ []) pieces
    → (wr : WronBuffer) × (room : Cells) × (recv_loop looks fresh
          (length text)
          (map got pieces ++ rest)
          chunk
          (make_wron fresh)
          0
        ≡ (ok wr, rest))
      × Holds fresh wr text room
      × (wr.size ≡ kb)
recv_loop_text looks fresh text pieces rest chunk h k c full =
    let (wr, room, loop, held, z) =
      recv_loop_lem looks fresh (length text) pieces [] rest chunk (new_cells fresh kb)
        (make_wron fresh) (make_wron-Holds fresh) some_piece full (rw c (omega arith)) k in
    (wr, room, loop, subst (λ t. Holds fresh wr t room) c held, z)
  where
    some_piece : pieces ≢ []
    some_piece e = h (sym c ∙ ap concat e)
