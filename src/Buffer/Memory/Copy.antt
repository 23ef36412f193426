-- ===== src/Buffer/Memory/Copy.antt =====
-- What copying and reading arrays does to arrays that begin with known bytes.
use mathlib.Core.List.{map-append}
use json_rpc.Common.{
  ℕ, ◌+◌, ◌≤◌, ◌≡◌, refl, sym, ap, ◌∙◌, ◌≢◌, ◌&&◌, true, List, [], ◌∷◌, ◌++◌, map, some, arith, leb,
  drop, length, All, length-append, length-map, take-append_left, drop-append_left, drop-drop,
  append_assoc, ne→==,
}
use json_rpc.Errors.{Result, ok, stop, ◌>>=◌}
use json_rpc.Buffer.Memory.{Cells, memcpy, c_text, text_of}

abbrev pub bytes : List ℕ → Cells
bytes = map some

-- Copying the bytes `ys` behind the bytes `xs`, which the array holds, leaves it with both.
pub memcpy-bytes :
    (xs ys : List ℕ) (room src : Cells) (at n : ℕ)
    → at ≡ length xs
    → n ≡ length ys
    → n ≤ length room
    → memcpy (bytes xs ++ room) at (bytes ys ++ src) n ≡ ok (bytes (xs ++ ys) ++ drop n room)
unfolding memcpy
memcpy-bytes xs ys room src at n p q h =
    rw
      (
        fits,
        take-append_left (bytes xs) room at (omega (arith, xl)),
        cut,
        take-append_left (bytes ys) src n (omega (arith, yl)),
      )
      (rw (map-append some xs ys) (ap ok (sym (append_assoc (bytes xs) (bytes ys) (drop n room)))))
  where
    xl : length (bytes xs) ≡ length xs
    xl = length-map xs some

    yl : length (bytes ys) ≡ length ys
    yl = length-map ys some

    cut : drop (at + n) (bytes xs ++ room) ≡ drop n room
    cut =
        sym (drop-drop at n (bytes xs ++ room))
        ∙ ap (drop n) (drop-append_left (bytes xs) room at (omega (arith, xl)))

    fits : (leb n (length (bytes ys ++ src)) && leb (at + n) (length (bytes xs ++ room))) ≡ true
    fits = ground (arith, xl, yl, length-append (bytes ys) src, length-append (bytes xs) room)

-- Reading back bytes that the array holds, by their number.
pub text_of-bytes :
    (xs : List ℕ) (room : Cells) (n : ℕ) → n ≡ length xs → text_of n (bytes xs ++ room) ≡ ok xs
unfolding text_of
text_of-bytes [] room ℕ.zero e = refl
text_of-bytes [] room (ℕ.suc n) e = absurd (omega arith)
text_of-bytes (x ∷ xs) room ℕ.zero e = absurd (omega arith)
text_of-bytes (x ∷ xs) room (ℕ.suc n) e = rw (text_of-bytes xs room n (omega arith))

-- A pointer to bytes without a zero is read past their end: what the text is depends on what
-- stands behind them in the array.
pub c_text-bytes :
    (xs : List ℕ) (room : Cells)
    → All (λ b. b ≢ 0) xs
    → c_text (bytes xs ++ room) ≡ (c_text room >>= λ bs. ok (xs ++ bs))
unfolding c_text
c_text-bytes [] room h = ground arith
c_text-bytes (x ∷ xs) room h = rw (ne→== x 0 h.0, c_text-bytes xs room h.1) (again (c_text room))
  where
    again :
        (r : Result (List ℕ))
        → ((r >>= λ bs. ok (xs ++ bs)) >>= λ bs. ok (x ∷ bs)) ≡ (r >>= λ bs. ok (x ∷ xs ++ bs))
    again (ok bs) = refl
    again (stop s) = refl
