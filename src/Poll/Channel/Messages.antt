-- ===== src/Poll/Channel/Messages.antt =====
-- Whole messages on a channel, and messages whose rest does not come.
use json_rpc.Common.{
  ℕ, zero, suc, ◌+◌, ◌-◌, ◌%◌, ◌^◌, ◌≤◌, ◌<◌, ◌≡◌, ◌≢◌, refl, ap, subst, ◌∙◌, arith, List, [], ◌∷◌,
  ◌++◌, map, true, false, Option, none, if◌then◌else◌, length, take, drop, All, concat, replicate,
  ne→==, eq→==, append-nil, length-replicate, leb, ltb, ◌&&◌, lt→leb,
}
use json_rpc.Common.Int.{pos}
use json_rpc.Errors.{ok, stop, Stop, Fault, ◌>>=◌}
use json_rpc.Buffer.Memory.{Cells, c_text, new_cells, memcpy}
use json_rpc.Buffer.Memory.Copy.{bytes, c_text-bytes}
use json_rpc.Buffer.Words.{int_bytes, add_size, sub_size}
use json_rpc.Buffer.Wron.{WronBuffer, make_wron_sized, write_sized}
use json_rpc.Buffer.Wron
use json_rpc.Buffer.Wron.Writing.{HoldsSized}
use json_rpc.Stream.{Read, got, read_error, new_chunk}
use json_rpc.Stream.Size.{header-int_bytes}
use json_rpc.Poll.Channel.{
  Machine, closed, read_pending, read_ready, Channel, filled, read_chunk, start_message, read_size,
  read, get_msg,
}
use json_rpc.Poll.Channel.Receiving.{reads, during, reads_rest, read-got}

-- The channel c between two messages.
abbrev pub between : Channel → List Read → Channel
between c rs = record c {
  stream = record c.stream { reads = rs };
  write_buffer = none;
  busy = false;
}

module _ (fresh : Option ℕ) (c : Channel) where
  -- The buffer for a message of size n.
  abbrev empty_buffer : ℕ → WronBuffer
  empty_buffer n = record { cells = new_cells fresh n; size = n; pos = 0 }

  empty_buffer-HoldsSized :
      (n : ℕ) → n < 2 ^ 31 → HoldsSized (empty_buffer n) [] (new_cells fresh n)
  empty_buffer-HoldsSized n h = record {
    begins = refl;
    at = refl;
    whole = omega (arith, length-replicate n fresh);
    small = h;
  }

  -- The client closes between two messages.
  pub read-closed :
      (rs : List Read) → read fresh (between c (got [] ∷ rs)) ≡ (ok closed, between c rs)
  unfolding read read_size
  read-closed rs = refl

  pub read-end :
      (rs : List Read)
      → c.stream.reads ≡ got [] ∷ rs
      → read fresh (between c c.stream.reads) ≡ (ok closed, between c rs)
  read-end rs e = ap (λ l. read fresh (between c l)) e ∙ read-closed rs

  -- Behind the size a read goes on to the first chunk.
  read-header :
      (n : ℕ) (rs : List Read)
      → suc n < 2 ^ 31
      → read fresh (between c (got (int_bytes (pos (suc n))) ∷ rs))
        ≡ read fresh (during c rs (empty_buffer (suc n)) false)
  unfolding read read_size start_message int_bytes make_wron_sized
  read-header n rs h =
      rw
        (
          read,
          header-int_bytes (suc n) h,
          start_message,
          make_wron_sized,
          lt→leb (2 ^ 63) (suc n) (omega arith),
          lt→leb (suc n) 0 (omega arith),
        )
        refl

  -- A text without zero bytes, not empty and shorter than 2 ^ 31 bytes, that arrives behind its
  -- size in pieces that are not empty, is whole after as many reads as there are pieces; get_msg
  -- then gives the text and behind it whatever the memory behind the array holds up to the next
  -- zero byte, or the fault that reading this memory is.
  pub reads_message :
      (mach : Machine) (text : List ℕ) (pieces : List (List ℕ)) (rest : List Read)
      → text ≢ []
      → length text < 2 ^ 31
      → All (λ b. b ≢ 0) text
      → concat pieces ≡ text
      → All (λ p. p ≢ []) pieces
      → (wr : WronBuffer) × (reads fresh
            (length pieces)
            (between c (got (int_bytes (pos (length text))) ∷ (map got pieces ++ rest)))
          ≡ (ok read_ready, during c rest wr true))
        × (get_msg mach (during c rest wr true) ≡ (c_text mach.beyond >>= λ bs. ok (text ++ bs)))
  unfolding reads get_msg
  reads_message mach [] pieces rest h k z e full = absurd (h refl)
  reads_message mach (x ∷ xs) [] rest h k z e full = cc
  reads_message mach (x ∷ xs) (p ∷ ps) rest h k z e full =
      let (wr, loop, held) =
        reads_rest fresh c (p ∷ ps) [] (new_cells fresh (suc (length xs))) rest
          (empty_buffer (suc (length xs))) (empty_buffer-HoldsSized (suc (length xs)) k) (λ r. cc)
          full (omega (arith, ap length e, length-replicate (suc (length xs)) fresh)) in
      (
        wr,
        rw (reads, read-header (length xs) (map got (p ∷ ps) ++ rest) k) loop,
        ap (λ t. c_text (t ++ mach.beyond))
              (held.begins ∙ ap (λ t. bytes t ++ []) e ∙ append-nil (bytes (x ∷ xs)))
            ∙ c_text-bytes (x ∷ xs) mach.beyond z,
      )

  -- What the number -1 of a failed read makes of a new buffer: it is full of what the array on the
  -- stack held.
  abbrev pub garbage : ℕ → WronBuffer
  garbage n = record {
    cells = take (suc n) new_chunk ++ drop (suc n) (new_cells fresh (suc n));
    size = suc n;
    pos = suc n;
  }

  write_sized-failed :
      (n : ℕ)
      → suc n ≤ 1024
      → write_sized (empty_buffer (suc n)) new_chunk (2 ^ 64 - 1) ≡ ok (garbage n, suc n)
  unfolding write_sized memcpy
  write_sized-failed n h =
      rw (write_sized, ne→== 0 (suc n) (λ e. omega (arith, e)), amount, memcpy, fits, same, all)
        refl
    where
      amount :
          (if ltb (suc n) (add_size 0 (2 ^ 64 - 1)) then sub_size (suc n) 0 else (2 ^ 64 - 1))
          ≡ suc n
      amount = ground arith

      fits :
          (leb (suc n) (length new_chunk) && leb (0 + suc n) (length (new_cells fresh (suc n))))
          ≡ true
      fits = ground (arith, length-replicate (suc n) fresh)

      same : 0 + suc n ≡ suc n
      same = omega arith

      all : suc n % 2 ^ 64 ≡ suc n
      all = omega arith

  -- If the size of a message, from 1 to 1024, has come and the read behind it finds nothing or
  -- fails, the read of the channel reports a whole message; get_msg then reads bytes that nobody
  -- wrote.
  pub read_no_body :
      (mach : Machine) (n : ℕ) (rest : List Read)
      → suc n ≤ 1024
      → (wr : WronBuffer) × (read fresh
            (between c (got (int_bytes (pos (suc n))) ∷ read_error ∷ rest))
          ≡ (ok read_ready, during c rest wr true))
        × (get_msg mach (during c rest wr true) ≡ stop (Stop.fault Fault.indeterminate))
  unfolding read get_msg filled read_chunk c_text Wron.ready
  read_no_body mach n rest h = (
    garbage n,
    read-header n (read_error ∷ rest) (omega arith)
        ∙ rw (read, write_sized-failed n h, filled, Wron.ready, eq→== (suc n) (suc n) refl) refl,
    refl,
  )

  -- A client that closes in the middle of a message, though the channel reads the end of its stream
  -- again and again: the channel asks for more each time.
  pub reads_cut_off :
      (k : ℕ) (bs : List ℕ) (room : Cells) (rest : List Read) (wr : WronBuffer)
      → HoldsSized wr bs room
      → 0 < length room
      → (wr' : WronBuffer) × (reads fresh k (during c (replicate k (got []) ++ rest) wr false)
          ≡ (ok read_pending, during c rest wr' false))
        × HoldsSized wr' bs room
  unfolding reads
  reads_cut_off zero bs room rest wr h l = (wr, refl, h)
  reads_cut_off (suc k) bs room rest wr h l =
      let (wr', step, held) =
        read-got fresh c [] bs room (replicate k (got []) ++ rest) wr h (omega arith) in
      let (wr'', loop, held') =
        reads_cut_off k bs room rest wr' (subst (λ t. HoldsSized wr' t room) (append-nil bs) held)
          l in
      (wr'', rw (reads, step, ne→== 0 (length room) (λ e. omega (arith, e))) loop, held')
