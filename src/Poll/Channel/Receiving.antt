-- ===== src/Poll/Channel/Receiving.antt =====
-- What a channel makes of what it reads.
use json_rpc.Common.{
  ℕ, zero, suc, ◌≤◌, ◌<◌, ◌≡◌, ◌≢◌, refl, sym, ap, subst, ◌∙◌, arith, List, [], ◌∷◌, ◌++◌, map,
  Bool, true, false, Option, some, ◌==◌, if◌then◌else◌, length, take, drop, inl, inr, ◌⊎◌, All,
  concat, ne→==, eq→==, append_assoc, append-nil, length-append, length-drop, take_all,
  nil_of_length,
}
use json_rpc.Errors.{Result, ok, stop}
use json_rpc.Buffer.Memory.{Cells}
use json_rpc.Buffer.Wron.{WronBuffer, make_wron_sized, write_sized}
use json_rpc.Buffer.Wron
use json_rpc.Buffer.Wron.Writing.{HoldsSized, write_sized_lem}
use json_rpc.Stream.{Read, got, new_chunk}
use json_rpc.Stream.Receiving.{length-pos}
use json_rpc.Poll.Channel.{
  State, broken, closed, read_pending, read_ready, write_pending, write_ready, Channel, filled,
  read,
}

more : Result State × Channel → (Channel → Result State × Channel) → Result State × Channel
more (ok read_pending, c) again = again c
more (r, c) again = (r, c)

-- Reads, one for each time that the socket is found readable, until one does not ask for more.
unfoldable pub reads : Option ℕ → ℕ → Channel → Result State × Channel
unfolding more
reads fresh zero c = (ok read_pending, c)
reads fresh (suc n) c = more (read fresh c) (reads fresh n)

-- The channel c in the middle of a message.
abbrev pub during : Channel → List Read → WronBuffer → Bool → Channel
during c rs wr busy = record c {
  stream = record c.stream { reads = rs };
  write_buffer = some wr;
  busy = busy;
}

module _ (fresh : Option ℕ) (c : Channel) where
  -- One read puts its bytes behind those that the buffer holds, and the last one ends the message.
  pub read-got :
      (p bs : List ℕ) (room : Cells) (rs : List Read) (wr : WronBuffer)
      → HoldsSized wr bs room
      → length p ≤ length room
      → (wr' : WronBuffer) × (read fresh (during c (got p ∷ rs) wr false) ≡ (
          if length p == length room
          then (ok read_ready, during c rs wr' true)
          else (ok read_pending, during c rs wr' false)))
        × HoldsSized wr' (bs ++ p) (drop (length p) room)
  unfolding read filled Wron.ready
  read-got p bs room rs wr h fits =
      let (wr', step, held) =
        write_sized_lem wr bs p room (drop (length p) new_chunk) (length p) h refl
          (omega (arith, h.whole, h.small)) in
      let e : take (length room) p ≡ p = take_all (length room) p fits in
      (
        wr',
        rw
            (
              read,
              step,
              filled,
              Wron.ready,
              same wr' (subst (λ t. HoldsSized wr' (bs ++ t) (drop (length p) room)) e held),
            )
            refl,
        subst (λ t. HoldsSized wr' (bs ++ t) (drop (length p) room)) e held,
      )
    where
      same :
          (wr' : WronBuffer)
          → HoldsSized wr' (bs ++ p) (drop (length p) room)
          → (wr'.pos == wr'.size) ≡ (length p == length room)
      same wr' k = ground (arith, k.at, k.whole, length-append bs p, length-drop (length p) room)

  -- The rest of a message, in pieces that are not empty.
  pub reads_rest :
      (pieces : List (List ℕ)) (bs : List ℕ) (room : Cells) (rest : List Read) (wr : WronBuffer)
      → HoldsSized wr bs room
      → pieces ≢ []
      → All (λ p. p ≢ []) pieces
      → length (concat pieces) ≡ length room
      → (wr' : WronBuffer) × (reads fresh
            (length pieces)
            (during c (map got pieces ++ rest) wr false)
          ≡ (ok read_ready, during c rest wr' true))
        × HoldsSized wr' (bs ++ concat pieces) []
  unfolding reads
  reads_rest [] bs room rest wr h k full e = absurd (k refl)
  reads_rest (p ∷ []) bs room rest wr h k full e =
      let (wr', step, held) = read-got p bs room rest wr h (omega (arith, total)) in
      (
        wr',
        rw (step, eq→== (length p) (length room) total) refl,
        subst (λ t. HoldsSized wr' (bs ++ p) t → HoldsSized wr' (bs ++ (p ++ [])) [])
            (sym (none_left (length p) room (omega (arith, total))))
            (λ h'. subst (λ t. HoldsSized wr' (bs ++ t) []) (sym (append-nil p)) h') held,
      )
    where
      total : length p ≡ length room
      total = omega (arith, ap length (append-nil p), e)

      none_left : (n : ℕ) (xs : Cells) → length xs ≤ n → drop n xs ≡ []
      none_left n xs l = nil_of_length (drop n xs) (omega (arith, length-drop n xs))
  reads_rest (p ∷ q ∷ qs) bs room rest wr h k full e =
      let (wr', step, held) =
        read-got p bs room (map got (q ∷ qs) ++ rest) wr h (omega (arith, less)) in
      let (wr'', loop, held') =
        reads_rest (q ∷ qs) (bs ++ p) (drop (length p) room) rest wr' held (λ r. cc) full.1
          (omega (arith, length-drop (length p) room, length-append p (concat (q ∷ qs)), e)) in
      (
        wr'',
        rw (step, ne→== (length p) (length room) (λ r. omega (arith, less, r))) loop,
        subst (λ t. HoldsSized wr'' t []) (append_assoc bs p (concat (q ∷ qs))) held',
      )
    where
      less : length p < length room
      less = omega (
        arith,
        length-append p (concat (q ∷ qs)),
        length-append q (concat qs),
        length-pos q full.1.0,
        e,
      )

pub reads-none : (fresh : Option ℕ) (c c' : Channel) → reads fresh 0 c ≢ (ok read_ready, c')
unfolding reads
reads-none fresh c c' e = cc

-- The first of several reads that end with a whole message.
pub reads-first :
    (fresh : Option ℕ) (k : ℕ) (c c' : Channel)
    → reads fresh (suc k) c ≡ (ok read_ready, c')
    → (read fresh c ≡ (ok read_ready, c'))
      ⊎ ((c'' : Channel) × (read fresh c ≡ (ok read_pending, c''))
          × (reads fresh k c'' ≡ (ok read_ready, c')))
unfolding reads more
reads-first fresh k c c' = first (read fresh c) refl
  where
    first :
        (r : Result State × Channel)
        → read fresh c ≡ r
        → more r (reads fresh k) ≡ (ok read_ready, c')
        → (read fresh c ≡ (ok read_ready, c'))
          ⊎ ((c'' : Channel) × (read fresh c ≡ (ok read_pending, c''))
              × (reads fresh k c'' ≡ (ok read_ready, c')))
    first (ok read_pending, c'') e h = inr (c'', e, h)
    first (ok broken, c'') e h = inl (e ∙ h)
    first (ok closed, c'') e h = inl (e ∙ h)
    first (ok read_ready, c'') e h = inl (e ∙ h)
    first (ok write_pending, c'') e h = inl (e ∙ h)
    first (ok write_ready, c'') e h = inl (e ∙ h)
    first (stop q, c'') e h = inl (e ∙ h)
