-- ===== src/Stream/Reads.antt =====
-- Which reads a transfer takes.
use json_rpc.Common.{
  ℕ, zero, suc, ◌≤◌, ◌≡◌, refl, ◌∙◌, arith, List, [], ◌∷◌, Bool, true, false, Option, ◌==◌,
  if◌then◌else◌, length, inl, inr, Bool-cases,
}
use json_rpc.Common.Int.{ℤ, int_of_size}
use json_rpc.Errors.{Result, ok, Result-cases}
use json_rpc.Buffer.Memory.{Cells}
use json_rpc.Buffer.Rdon.{RdonBuffer}
use json_rpc.Buffer.Rdon
use json_rpc.Buffer.Wron.{WronBuffer}
use json_rpc.Stream.{
  Stream, Read, got, read_error, Write, write_with, write_fd, send_loop, send_text, max_chunk_size,
  absorb, absorb_error, recv_loop, fill,
}

reads-write_with :
    (ws : List Write) (s s' : Stream) (chunk : List ℕ) (n : ℤ)
    → write_with ws s chunk ≡ ok (n, s')
    → s'.reads ≡ s.reads
unfolding write_with
reads-write_with [] s s' chunk n e = cc
reads-write_with (Write.all ∷ ws) s s' chunk n e = ground arith
reads-write_with (Write.took k ∷ ws) s s' chunk n e = ground arith
reads-write_with (Write.write_error ∷ ws) s s' chunk n e = ground arith

reads-send_loop :
    (judge : ℤ → ℕ → Result (Unit {0})) (fuel : ℕ) (b : RdonBuffer) (s : Stream)
    → (send_loop judge fuel b s).1.reads ≡ s.reads
unfolding send_loop
reads-send_loop judge zero b s = refl
reads-send_loop judge (suc fuel) b s =
    elim (Bool-cases (length (Rdon.read b max_chunk_size).0 == 0)) [
      | inl e ↦ rw e refl
      | inr e ↦ elim (Result-cases (write_fd s (Rdon.read b max_chunk_size).0)) [
        | inl (x, w) ↦ rw (e, w) refl
        | inr ((n, s'), w) ↦ elim (Result-cases (judge n (length (Rdon.read b max_chunk_size).0))) [
          | inl (x, k) ↦ rw (e, w, k) (kept s' n w)
          | inr (u, k) ↦
              rw (e, w, k)
                (reads-send_loop judge fuel (Rdon.read b max_chunk_size).1 s' ∙ kept s' n w)
        ]
      ]
    ]
  where
    kept :
        (s' : Stream) (n : ℤ)
        → write_fd s (Rdon.read b max_chunk_size).0 ≡ ok (n, s')
        → s'.reads ≡ s.reads
    kept s' n w = unfold write_fd in reads-write_with s.writes s s' _ n w

-- Sending leaves what is to be read.
pub reads-send_text :
    (judge : ℤ → ℕ → Result (Unit {0})) (msg : List ℕ) (s : Stream)
    → (send_text judge msg s).1.reads ≡ s.reads
unfolding send_text
reads-send_text judge msg s =
    elim (Result-cases (Rdon.make_sized_rdon msg (int_of_size (length msg)))) [
      | inl (e, p) ↦ rw (send_text, p) refl
      | inr (b, p) ↦ rw (send_text, p) (reads-send_loop judge (suc (suc (length b.str))) b s)
    ]

at_most :
    (b : Bool) (rs : List Read) (wr : WronBuffer) (x : Result WronBuffer × List Read)
    → length x.1 ≤ length rs
    → length (if b then (ok wr, rs) else x).1 ≤ suc (length rs)
at_most true rs wr x h = omega arith
at_most false rs wr x h = omega arith

-- Receiving adds no reads.
pub length-recv_loop :
    (looks : Bool) (fresh : Option ℕ) (size : ℕ) (rs : List Read) (chunk : Cells) (wr : WronBuffer)
    (curr : ℕ)
    → length (recv_loop looks fresh size rs chunk wr curr).1 ≤ length rs
unfolding recv_loop
length-recv_loop looks fresh size [] chunk wr curr = omega arith
length-recv_loop looks fresh size (got bs ∷ rs) chunk wr curr =
    elim (Result-cases (absorb fresh bs chunk wr curr)) [
      | inl (e, p) ↦ rw (recv_loop, p) (omega arith)
      | inr ((wr', n), p) ↦
          rw (recv_loop, p)
            (at_most (n == size) rs wr' _
              (length-recv_loop looks fresh size rs (fill bs chunk) wr' n))
    ]
length-recv_loop true fresh size (read_error ∷ rs) chunk wr curr = omega arith
length-recv_loop false fresh size (read_error ∷ rs) chunk wr curr =
    elim (Result-cases (absorb_error fresh chunk wr curr)) [
      | inl (e, p) ↦ rw (recv_loop, p) (omega arith)
      | inr ((wr', n), p) ↦
          rw (recv_loop, p)
            (at_most (n == size) rs wr' _ (length-recv_loop false fresh size rs chunk wr' n))
    ]
