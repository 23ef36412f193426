-- ===== src/Buffer/Wron/Writing.antt =====
-- Writing into buffers: what they hold afterwards.
use mathlib.Core.List.{map-append}
use json_rpc.Common.{
  ℕ, zero, ◌+◌, ◌-◌, ◌^◌, ◌≤◌, ◌<◌, ◌≡◌, refl, sym, ap, ◌∙◌, List, [], ◌++◌, true, arith, ltb, leb,
  length, suc, take, drop, min, inl, inr, Bool-cases, ◌==◌, length-take, length-drop, length-append,
  length-replicate, append_assoc, append-nil, if◌then◌else◌, drop_all, drop-min, nil_of_length,
  replicate, take-append-drop, Option, some, max,
}
use json_rpc.Common.Int.{pos, int_of_size}
use json_rpc.Errors.{ok}
use json_rpc.Buffer.Memory.{Cells, new_cells, memcpy}
use json_rpc.Buffer.Memory.Copy.{bytes, memcpy-bytes}
use json_rpc.Buffer.Words.{kb, add_size, sub_size}
use json_rpc.Buffer.Wron.{WronBuffer, make_wron, write, room_for, write_sized}

-- The length of the array of a growing buffer of size s that holds l bytes.
abbrev pub capacity : ℕ → ℕ → ℕ
capacity s l = if leb l s then s else max (s + kb) l

-- The buffer holds exactly `bs`, at the start of its array; the cells behind are as the allocator
-- left them.
pub record Holds (fresh : Option ℕ) (b : WronBuffer) (bs : List ℕ) (room : Cells) : Type 0 where
  pub begins : b.cells ≡ bytes bs ++ room
  pub unwritten : room ≡ new_cells fresh (length room)
  pub at : b.pos ≡ length bs
  pub fits : length bs + length room ≡ capacity b.size (length bs)
  pub small : b.size < 2 ^ 30

drop-replicate {ℓ} : {A : Type ℓ} (n m : ℕ) (a : A) → drop n (replicate m a) ≡ replicate (m - n) a
drop-replicate zero m a = let e : m - 0 ≡ m = omega arith in rw e
drop-replicate (suc n) zero a = let e : 0 - suc n ≡ 0 = omega arith in rw e
drop-replicate (suc n) (suc m) a =
    let e : suc m - suc n ≡ m - n = omega arith in rw e (drop-replicate n m a)

module _ (fresh : Option ℕ) where
  pub make_wron-Holds : Holds fresh (make_wron fresh) [] (new_cells fresh kb)
  make_wron-Holds = record {
    begins = refl;
    unwritten = refl;
    at = refl;
    fits = refl;
    small = omega arith;
  }

  -- After growing or not, the array holds the same bytes, and behind them fresh cells, n at least.
  room_for_lem :
      (b : WronBuffer) (bs : List ℕ) (room : Cells) (n : ℕ)
      → Holds fresh b bs room
      → length bs + n < 2 ^ 31
      → let c = capacity b.size (length bs + n) - length bs in
        (room_for fresh b n ≡ ok (bytes bs ++ new_cells fresh c)) × (n ≤ c)
  unfolding room_for
  room_for_lem b bs room n h k = elim (Bool-cases (ltb b.size (add_size b.pos n))) [
    | inr e ↦ (
      rw e (
          ap ok (
            h.begins
            ∙ ap (λ t. bytes bs ++ t)
                (h.unwritten ∙ ap (new_cells fresh) (ground (arith, h.at, h.fits, h.small))))),
      ground (arith, h.at, h.fits, h.small),
    )
    | inl e ↦ (
      rw (e, chosen)
          (copied
            ∙ ap (λ t. ok (bytes bs ++ t))
                (drop-replicate b.pos m fresh
                  ∙ ap (new_cells fresh) (ground (arith, h.at, h.small)))),
      ground (arith, h.at, h.small),
    )
  ]
    where
      m : ℕ
      m = max (b.pos + n) (b.size + kb)

      chosen :
          int_of_size (
            if ltb (add_size b.pos n) (add_size b.size kb)
            then add_size b.size kb
            else add_size b.pos n)
          ≡ pos m
      chosen = ground (arith, h.at, h.small)

      copied :
          memcpy (new_cells fresh m) 0 b.cells b.pos
          ≡ ok (bytes bs ++ drop b.pos (new_cells fresh m))
      copied = rw h.begins (
          memcpy-bytes [] bs (new_cells fresh m) room 0 b.pos refl h.at
            (omega (arith, length-replicate m fresh)))

  -- Writing into a growing buffer appends: if it holds some bytes and there are fewer than 2 ^ 31
  -- with the n that are written, the call returns n and the buffer holds both, in an array that is
  -- large enough, the size field unchanged.
  pub write_lem :
      (b : WronBuffer) (bs ys : List ℕ) (room junk : Cells) (n : ℕ)
      → Holds fresh b bs room
      → n ≡ length ys
      → length bs + n < 2 ^ 31
      → (b' : WronBuffer) × (room' : Cells) × (write fresh b (bytes ys ++ junk) n ≡ ok (b', n))
        × Holds fresh b' (bs ++ ys) room'
        × (b'.size ≡ b.size)
  unfolding write
  write_lem b bs ys room junk n h e k = (
    record b { cells = bytes (bs ++ ys) ++ drop n wide; pos = add_size b.pos n },
    drop n wide,
    rw
        (
          enough.0,
          memcpy-bytes bs ys wide junk b.pos n h.at e (omega (arith, wide_length, enough.1)),
        )
        refl,
    record {
      begins = refl;
      unwritten =
          drop-replicate n c fresh
          ∙ ap (new_cells fresh) (omega (arith, length-drop n wide, wide_length));
      at = omega (arith, h.at, length-append bs ys);
      fits = ground (arith, length-append bs ys, length-drop n wide, wide_length, enough.1);
      small = h.small;
    },
    refl,
  )
    where
      c : ℕ
      c = capacity b.size (length bs + n) - length bs

      wide : Cells
      wide = new_cells fresh c

      wide_length : length wide ≡ c
      wide_length = length-replicate c fresh

      enough : (room_for fresh b n ≡ ok (bytes bs ++ wide)) × (n ≤ c)
      enough = room_for_lem b bs room n h k

-- The size of a limited buffer is that of its array.
pub record HoldsSized (b : WronBuffer) (bs : List ℕ) (room : Cells) : Type 0 where
  pub begins : b.cells ≡ bytes bs ++ room
  pub at : b.pos ≡ length bs
  pub whole : b.size ≡ length bs + length room
  pub small : b.size < 2 ^ 31

-- A limited buffer takes as many of the n bytes, n below 2 ^ 31, as it has room for, drops the
-- others and returns the number taken.
pub write_sized_lem :
    (b : WronBuffer) (bs ys : List ℕ) (room junk : Cells) (n : ℕ)
    → HoldsSized b bs room
    → n ≡ length ys
    → n < 2 ^ 31
    → (b' : WronBuffer) × (write_sized b (bytes ys ++ junk) n ≡ ok (b', min n (length room)))
      × HoldsSized b' (bs ++ take (length room) ys) (drop n room)
unfolding write_sized
write_sized_lem b bs ys room junk n h e k = elim (Bool-cases (b.pos == b.size)) [
  | inl full ↦ (
    b,
    rw full (ground (arith, h.at, h.whole)),
    record {
      begins =
          rw (empty full, append-nil bs, drop_all n room (omega (arith, empty full)))
            (h.begins ∙ ap (λ t. bytes bs ++ t) (nil_of_length room (empty full)));
      at = omega (arith, h.at, length-append bs ys', kept, empty full);
      whole = omega (arith, h.whole, length-append bs ys', length-drop n room, kept, empty full);
      small = h.small;
    },
  )
  | inr open_ ↦ (
    record b { cells = bytes (bs ++ ys') ++ drop c room; pos = add_size b.pos c },
    rw
        (
          open_,
          amount,
          split,
          h.begins,
          memcpy-bytes bs ys' room (bytes (drop (length room) ys) ++ junk) b.pos c h.at
              (omega (arith, kept)) (omega arith),
        )
        refl,
    record {
      begins = ap (λ t. bytes (bs ++ ys') ++ t) (drop-min n room);
      at = omega (arith, h.at, length-append bs ys', kept);
      whole = omega (arith, length-append bs ys', length-drop n room, kept);
      small = h.small;
    },
  )
]
  where
    ys' : List ℕ
    ys' = take (length room) ys

    empty : (b.pos == b.size) ≡ true → length room ≡ 0
    empty full = ground (arith, h.at, h.whole)

    c : ℕ
    c = min n (length room)

    kept : length ys' ≡ min (length room) (length ys)
    kept = length-take (length room) ys

    amount : (if ltb b.size (add_size b.pos n) then sub_size b.size b.pos else n) ≡ c
    amount = ground (arith, h.at, h.whole, h.small)

    split : bytes ys ++ junk ≡ bytes ys' ++ (bytes (drop (length room) ys) ++ junk)
    split =
        ap (λ t. bytes t ++ junk) (sym (take-append-drop (length room) ys))
        ∙ ap (λ t. t ++ junk) (map-append some ys' (drop (length room) ys))
        ∙ append_assoc (bytes ys') (bytes (drop (length room) ys)) junk
