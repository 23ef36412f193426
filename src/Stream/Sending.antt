-- ===== src/Stream/Sending.antt =====
-- Sending a text over a socket: what has left when the loop ends, and that it ends.
use json_rpc.Common.{
  ℕ, zero, suc, ◌+◌, ◌/◌, ◌^◌, ◌<◌, ◌≡◌, ◌≢◌, refl, sym, ap, ◌∙◌, List, [], ◌∷◌, ◌++◌, arith, true,
  min, ◌==◌, take, drop, length, replicate, inl, inr, Bool-cases, append_assoc, append-nil,
  length-append, take-append-drop, nil_of_length, take_all, ne→==, eq→==,
}
use json_rpc.Common.Int.{ℤ, pos}
use json_rpc.Errors.{Result, ok, stop, Stop, Result-cases}
use json_rpc.Buffer.Words.{int_bytes}
use json_rpc.Buffer.Rdon.{RdonBuffer}
use json_rpc.Buffer.Rdon
use json_rpc.Buffer.Rdon.Reading.{
  IsValid, remaining, read_lem, make_sized_rdon_lem, sized, sized-IsValid, length-sized,
}
use json_rpc.Stream.{Stream, Write, write_with, write_fd, send_loop, send_text, max_chunk_size}

-- The loop goes on only after a write of the whole chunk.
abbrev pub IsStrict : (ℤ → ℕ → Result (Unit {0})) → Type 0
IsStrict judge = (n : ℤ) (len : ℕ) → judge n len ≡ ok tt → n ≡ pos len

-- A write appends a prefix of the chunk, as long as the number that it returns says.
write_with_lem :
    (ws : List Write) (s s' : Stream) (chunk : List ℕ) (n : ℤ)
    → write_with ws s chunk ≡ ok (n, s')
    → (k : ℕ) × (s'.sent ≡ s.sent ++ take k chunk) × (n ≡ pos (length chunk) → take k chunk ≡ chunk)
unfolding write_with
write_with_lem [] s s' chunk n e = cc
write_with_lem (Write.all ∷ ws) s s' chunk n e = (
  length chunk,
  ground (arith, take_all (length chunk) chunk),
  λ _. take_all _ chunk (omega arith),
)
write_with_lem (Write.took j ∷ ws) s s' chunk n e =
    (min j (length chunk), ground arith, λ q. take_all _ chunk (ground arith))
write_with_lem (Write.write_error ∷ ws) s s' chunk n e =
    (0, ground (arith, append-nil s.sent), λ q. ground arith)

write_fd_lem :
    (s s' : Stream) (chunk : List ℕ) (n : ℤ)
    → write_fd s chunk ≡ ok (n, s')
    → (k : ℕ) × (s'.sent ≡ s.sent ++ take k chunk) × (n ≡ pos (length chunk) → take k chunk ≡ chunk)
unfolding write_fd
write_fd_lem s s' chunk n e = write_with_lem s.writes s s' chunk n e

regroup :
    (xs : List ℕ) (k : ℕ) (ys zs : List ℕ) → xs ++ take k ys ++ (drop k ys ++ zs) ≡ xs ++ (ys ++ zs)
regroup xs k ys zs =
    append_assoc xs (take k ys) (drop k ys ++ zs)
    ∙ ap (λ t. xs ++ t)
        (sym (append_assoc (take k ys) (drop k ys) zs) ∙ ap (λ t. t ++ zs) (take-append-drop k ys))

-- What was sent and what was not, after a run of the loop from a buffer and a socket.
record Sent (b : RdonBuffer) (s : Stream) (out : Result (Unit {0}) × Stream) : Type 0 where
  unsent : List ℕ
  parts : out.1.sent ++ unsent ≡ s.sent ++ remaining b
  done : out.0 ≡ ok tt → unsent ≡ []

module _ {judge : ℤ → ℕ → Result (Unit {0})} (strict : IsStrict judge) where
  send_loop-Sent :
      (fuel : ℕ) (b : RdonBuffer) (s : Stream) → IsValid b → Sent b s (send_loop judge fuel b s)
  unfolding send_loop
  send_loop-Sent zero b s v = record { unsent = remaining b; parts = refl; done = λ e. cc }
  send_loop-Sent (suc fuel) b s v = elim (Bool-cases (length chunk == 0)) [
    | inl e ↦
        rw e (record {
          unsent = [];
          parts = ap (λ t. s.sent ++ t) (sym (finished e));
          done = λ _. refl;
        })
    | inr e ↦ elim (Result-cases (write_fd s chunk)) [
      | inl (x, w) ↦ rw (e, w) (record { unsent = remaining b; parts = refl; done = λ q. cc })
      | inr ((n, s'), w) ↦ elim (Result-cases (judge n (length chunk))) [
        | inl (x, j) ↦ rw (e, w, j) (cut_short s' n x w)
        | inr (u, j) ↦
            rw (e, w, j)
              (went_on s' n w (strict n (length chunk) j)
                (send_loop-Sent fuel (Rdon.read b max_chunk_size).1 s' next.4))
      ]
    ]
  ]
    where
      chunk : List ℕ
      chunk = (Rdon.read b max_chunk_size).0

      next :
          (chunk ++ remaining (Rdon.read b max_chunk_size).1 ≡ remaining b)
          × (length chunk ≡ min max_chunk_size (length (remaining b)))
          × ((Rdon.read b max_chunk_size).1.str ≡ b.str)
          × ((Rdon.read b max_chunk_size).1.pos ≡ b.pos + length chunk)
          × IsValid (Rdon.read b max_chunk_size).1
      next = read_lem b max_chunk_size v (omega arith)

      finished : (length chunk == 0) ≡ true → remaining b ≡ []
      finished e = nil_of_length (remaining b) (ground (arith, next.1))

      cut_short :
          (s' : Stream) (n : ℤ) (x : Stop) → write_fd s chunk ≡ ok (n, s') → Sent b s (stop x, s')
      cut_short s' n x w =
          let (k, out, _) = write_fd_lem s s' chunk n w in
          record {
            unsent = drop k chunk ++ remaining (Rdon.read b max_chunk_size).1;
            parts = rw out (regroup s.sent k chunk _ ∙ ap (λ t. s.sent ++ t) next.0);
            done = λ q. cc;
          }

      went_on :
          {out : Result (Unit {0}) × Stream} (s' : Stream) (n : ℤ)
          → write_fd s chunk ≡ ok (n, s')
          → n ≡ pos (length chunk)
          → Sent (Rdon.read b max_chunk_size).1 s' out
          → Sent b s out
      went_on s' n w q ih =
          let (k, out, whole) = write_fd_lem s s' chunk n w in
          record {
            unsent = ih.unsent;
            parts =
                ih.parts
                ∙ rw (out, whole q) (append_assoc s.sent chunk _ ∙ ap (λ t. s.sent ++ t) next.0);
            done = ih.done;
          }

pub write_fd_all :
    (s : Stream) (chunk : List ℕ) (ws : List Write)
    → s.writes ≡ Write.all ∷ ws
    → write_fd s chunk ≡ ok (pos (length chunk), record s { writes = ws; sent = s.sent ++ chunk })
unfolding write_fd
write_fd_all s chunk ws e = go s.writes e
  where
    go :
        (vs : List Write)
        → vs ≡ Write.all ∷ ws
        → write_with vs s chunk
          ≡ ok (pos (length chunk), record s { writes = ws; sent = s.sent ++ chunk })
    go vs p = rw p

-- The number of chunks that l bytes make.
abbrev pub chunks : ℕ → ℕ
chunks l = (l + 1023) / 1024

module _ (judge : ℤ → ℕ → Result (Unit {0}))
    (accepts : (n : ℕ) → 0 < n → judge (pos n) n ≡ ok tt) where
  send_loop_all :
      (fuel k : ℕ) (ws : List Write) (b : RdonBuffer) (s : Stream)
      → IsValid b
      → length (remaining b) < fuel
      → k ≡ chunks (length (remaining b))
      → s.writes ≡ replicate k Write.all ++ ws
      → send_loop judge fuel b s ≡ (ok tt, record s { writes = ws; sent = s.sent ++ remaining b })
  unfolding send_loop
  send_loop_all zero k ws b s v h c e = absurd (omega arith)
  send_loop_all (suc fuel) zero ws b s v h c e =
      rw
        (
          nothing_left,
          append-nil s.sent,
          ← e,
          eq→== (length (Rdon.read b max_chunk_size).0) 0
              (omega (arith, next, ap length nothing_left)),
        )
        refl
    where
      next : length (Rdon.read b max_chunk_size).0 ≡ min max_chunk_size (length (remaining b))
      next = (read_lem b max_chunk_size v (omega arith)).1

      nothing_left : remaining b ≡ []
      nothing_left = nil_of_length (remaining b) (omega arith)
  send_loop_all (suc fuel) (suc k) ws b s v h c e =
      rw (ne→== _ _ some_left, written, accepts (length chunk) (omega (arith, next.1)))
        (send_loop_all fuel k ws b' _ next.4 (omega (arith, rest, next.1))
            (omega (arith, rest, next.1)) refl
          ∙ ap (λ t. (ok tt, record s { writes = ws; sent = t }))
              (append_assoc s.sent chunk (remaining b') ∙ ap (λ t. s.sent ++ t) next.0))
    where
      chunk : List ℕ
      chunk = (Rdon.read b max_chunk_size).0

      b' : RdonBuffer
      b' = (Rdon.read b max_chunk_size).1

      next :
          (chunk ++ remaining b' ≡ remaining b)
          × (length chunk ≡ min max_chunk_size (length (remaining b)))
          × (b'.str ≡ b.str)
          × (b'.pos ≡ b.pos + length chunk)
          × IsValid b'
      next = read_lem b max_chunk_size v (omega arith)

      some_left : ¬ (length chunk ≡ 0)
      some_left q = omega (arith, next.1)

      written :
          write_fd s chunk
          ≡ ok (
            pos (length chunk),
            record s { writes = replicate k Write.all ++ ws; sent = s.sent ++ chunk },
          )
      written = write_fd_all s chunk _ e

      rest : length chunk + length (remaining b') ≡ length (remaining b)
      rest = sym (length-append chunk (remaining b')) ∙ ap length next.0

  -- If the test of the writes accepts a whole chunk, the message is not empty and shorter than 2 ^
  -- 31 bytes, and the socket takes every chunk whole, then the send returns, after as many writes
  -- as the size and the message make chunks of 1024 bytes, and they have been written.
  pub send_text_all :
      (msg : List ℕ) (s : Stream) (ws : List Write)
      → msg ≢ []
      → length msg < 2 ^ 31
      → s.writes ≡ replicate (chunks (4 + length msg)) Write.all ++ ws
      → send_text judge msg s
        ≡ (ok tt, record s { writes = ws; sent = s.sent ++ (int_bytes (pos (length msg)) ++ msg) })
  unfolding send_text
  send_text_all msg s ws h k e =
      rw (send_text, make_sized_rdon_lem msg h k)
        (send_loop_all _ _ ws (sized msg) s (sized-IsValid msg k) (omega arith)
          (ap chunks (sym (length-sized msg))) e)

module _ {judge : ℤ → ℕ → Result (Unit {0})} (msg : List ℕ) (s : Stream) (strict : IsStrict judge)
    (some_text : msg ≢ []) (fits : length msg < 2 ^ 31) where
  send_text-Sent : Sent (sized msg) s (send_text judge msg s)
  unfolding send_text
  send_text-Sent =
      rw (send_text, make_sized_rdon_lem msg some_text fits)
        (send_loop-Sent strict (suc (suc (length (sized msg).str))) (sized msg) s
          (sized-IsValid msg fits))

  -- If the send loop goes on only after a write of the whole chunk, and the message is not empty
  -- and shorter than 2 ^ 31 bytes, then what has been written when the send ends, however it ends,
  -- is a beginning of the size and the message.
  pub send_text_prefix :
      (unsent : List ℕ) × ((send_text judge msg s).1.sent ++ unsent
        ≡ s.sent ++ (int_bytes (pos (length msg)) ++ msg))
  send_text_prefix = (send_text-Sent.unsent, send_text-Sent.parts)

  -- If the send loop goes on only after a write of the whole chunk, and a send of a message that is
  -- not empty and shorter than 2 ^ 31 bytes returns, then the size and the whole message have been
  -- written, in order and once.
  pub send_text_done :
      (send_text judge msg s).0 ≡ ok tt
      → (send_text judge msg s).1.sent ≡ s.sent ++ (int_bytes (pos (length msg)) ++ msg)
  send_text_done e =
      sym (
        ap (λ u. (send_text judge msg s).1.sent ++ u) (send_text-Sent.done e)
        ∙ append-nil (send_text judge msg s).1.sent)
      ∙ send_text-Sent.parts
