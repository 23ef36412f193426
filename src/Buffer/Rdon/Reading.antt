-- ===== src/Buffer/Rdon/Reading.antt =====
-- Reading a buffer in pieces.
use json_rpc.Common.{
  ℕ, ◌+◌, ◌-◌, ◌^◌, ◌≤◌, ◌<◌, ◌≡◌, ◌≢◌, refl, ◌%◌, sym, ap, ◌∙◌, List, [], ◌∷◌, ◌++◌, arith, ltb,
  length, take, drop, min, concat, inl, inr, Bool-cases, ◌==◌, length-take, length-drop,
  take-append-drop, drop-drop, take-min, append_assoc, drop_all, All, if◌then◌else◌, take_all,
}
use json_rpc.Common.Int.{pos, int_of_size}
use json_rpc.Errors.{ok, stop, Stop, Fault}
use json_rpc.Buffer.Words.{add_size, sub_size, int_bytes}
use json_rpc.Buffer.Rdon.{RdonBuffer, make_sized_rdon, read}

-- The buffer is an array of `_size` bytes and a position in it.
pub record IsValid (b : RdonBuffer) : Type 0 where
  pub whole : b.size ≡ length b.str
  pub inside : b.pos ≤ b.size
  pub small : b.size < 2 ^ 63

-- What is still to be read.
abbrev pub remaining : RdonBuffer → List ℕ
remaining b = drop b.pos b.str

-- A read in closed form.
pub read-eq :
    (b : RdonBuffer) (n : ℕ)
    → IsValid b
    → n < 2 ^ 63
    → read b n ≡ (take n (remaining b), record b { pos = b.pos + min n (length (remaining b)) })
unfolding read
read-eq b n v h = elim (Bool-cases (b.pos == b.size)) [
  | inl e ↦ rw e (ground (arith, drop_all b.pos b.str, take_all n (remaining b)))
  | inr e ↦ rw (e, amount, moved) (rw take-min)
]
  where
    left : length (remaining b) ≡ b.size - b.pos
    left = omega (arith, length-drop b.pos b.str, v.whole)

    amount :
        (if ltb b.size (add_size b.pos n) then sub_size b.size b.pos else n)
        ≡ min n (length (remaining b))
    amount = ground (arith, left, v.inside, v.small)

    moved : add_size b.pos (min n (length (remaining b))) ≡ b.pos + min n (length (remaining b))
    moved = omega (arith, left, v.inside, v.small)

-- A read of n bytes, n below 2 ^ 63, from a valid buffer returns the next n bytes, or what is left
-- if that is less; the rest remains to be read, and the buffer stays valid.
pub read_lem :
    (b : RdonBuffer) (n : ℕ)
    → IsValid b
    → n < 2 ^ 63
    → ((read b n).0 ++ remaining (read b n).1 ≡ remaining b)
      × (length (read b n).0 ≡ min n (length (remaining b)))
      × ((read b n).1.str ≡ b.str)
      × ((read b n).1.pos ≡ b.pos + length (read b n).0)
      × IsValid (read b n).1
unfolding read
read_lem b n v h = rw read-eq (
  pieces,
  length-take n (remaining b),
  refl,
  omega (arith, length-take n (remaining b)),
  record {
    whole = v.whole;
    inside = omega (arith, length-drop b.pos b.str, v.whole, v.inside);
    small = v.small;
  },
)
  where
    k : ℕ
    k = min n (length (remaining b))

    pieces : take n (remaining b) ++ drop (b.pos + k) b.str ≡ remaining b
    pieces =
        ap (λ t. t ++ drop (b.pos + k) b.str) (sym (take-min n (remaining b)))
        ∙ ap (λ t. take k (remaining b) ++ t) (sym (drop-drop b.pos k b.str))
        ∙ take-append-drop k (remaining b)

-- Reads of the sizes `ns`, one after the other.
abbrev pub read_all : List ℕ → RdonBuffer → List (List ℕ) × RdonBuffer
read_all [] b = ([], b)
read_all (n ∷ ns) b =
    let (piece, b') = read b n in let (rest, b'') = read_all ns b' in (piece ∷ rest, b'')

-- However a valid buffer is read, in counts below 2 ^ 63, the pieces in order and what remains make
-- up what there was, and the buffer stays valid.
pub read_all_lem :
    (ns : List ℕ) (b : RdonBuffer)
    → IsValid b
    → All (λ n. n < 2 ^ 63) ns
    → (concat (read_all ns b).0 ++ remaining (read_all ns b).1 ≡ remaining b)
      × IsValid (read_all ns b).1
read_all_lem [] b v h = (refl, v)
read_all_lem (n ∷ ns) b v h =
    let (joined, _, _, _, v') = read_lem b n v h.0 in
    let (rest, v'') = read_all_lem ns (read b n).1 v' h.1 in
    (append_assoc (read b n).0 _ _ ∙ ap (λ t. (read b n).0 ++ t) rest ∙ joined, v'')

-- What a buffer with the length in front holds at first.
abbrev pub sized : List ℕ → RdonBuffer
sized text = record { str = int_bytes (pos (length text)) ++ text; size = 4 + length text; pos = 0 }

-- A buffer with the length in front holds the four bytes of the length and then the text, unread.
pub make_sized_rdon_lem :
    (text : List ℕ)
    → text ≢ []
    → length text < 2 ^ 31
    → make_sized_rdon text (int_of_size (length text)) ≡ ok (sized text)
unfolding make_sized_rdon
make_sized_rdon_lem [] h k = absurd (h refl)
make_sized_rdon_lem (x ∷ xs) h k = ground (arith, take_all (length (x ∷ xs) % 2 ^ 64) (x ∷ xs))

pub sized-IsValid : (text : List ℕ) → length text < 2 ^ 31 → IsValid (sized text)
unfolding int_bytes
sized-IsValid text h = record { whole = omega arith; inside = omega arith; small = omega arith }

pub length-sized : (text : List ℕ) → length (sized text).str ≡ 4 + length text
unfolding int_bytes
length-sized text = omega arith

-- The empty text is refused: the constructor's assertion fails.
pub make_sized_rdon_empty : make_sized_rdon [] (pos 0) ≡ stop (Stop.fault Fault.assertion)
unfolding make_sized_rdon
make_sized_rdon_empty = refl
