-- ===== src/Poll/Channel/Writing.antt =====
-- The writes of a channel, chunk by chunk.
use json_rpc.Common.{
  ℕ, zero, suc, ◌+◌, ◌-◌, ◌≤◌, ◌<◌, ◌⊎◌, ◌≡◌, refl, ap, ◌∙◌, arith, List, ◌∷◌, ◌++◌, Bool, true,
  false, ◌&&◌, some, ◌==◌, min, if◌then◌else◌, length, take, replicate, ne→==, eq→==, append_assoc,
  length-append, length-drop, length-take, take_all, ltb, Bool-cases, inl, inr,
}
use json_rpc.Common.Int.{ℤ}
use json_rpc.Errors.{Result, ok, stop, Stop, Fault}
use json_rpc.Buffer.Rdon.{RdonBuffer}
use json_rpc.Buffer.Rdon
use json_rpc.Buffer.Rdon.Reading.{IsValid, remaining, read-eq, read_lem}
use json_rpc.Stream.{Stream, Write, write_fd}
use json_rpc.Stream.Sending.{chunks, write_fd_all}
use json_rpc.Poll.Channel.{
  Machine, strict, max_buff_size, State, broken, closed, read_ready, read_pending, write_pending,
  write_ready, Channel, unlock, written, write_chunk, write,
}

-- The channel c in the middle of a send, with so much of the buffer read.
abbrev pub sending : Channel → Stream → RdonBuffer → Bool → Channel
sending c s b locked = record c { stream = s; read_buffer = some b; send_locked = locked }

more : Result (State × Channel) → (Channel → Result (State × Channel)) → Result (State × Channel)
more (ok (write_pending, c)) again = again c
more r again = r

-- Writes, one for each time that the socket is found writable, until one ends the message.
unfoldable pub writes : Machine → ℕ → Channel → Result (State × Channel)
unfolding more
writes mach zero c = ok (write_pending, c)
writes mach (suc n) c = more (write mach c) (writes mach n)

-- The buffer after a read of a chunk.
abbrev pub further : RdonBuffer → RdonBuffer
further b = record b { pos = b.pos + min 1024 (length (remaining b)) }

and_false : (b : Bool) → (b && false) ≡ false
and_false true = refl
and_false false = refl

module _ (c : Channel) where
  -- The write of the last chunk, whatever comes of it: the lock is released.
  pub write_last :
      (mach : Machine) (b : RdonBuffer) (s s' : Stream) (n : ℤ)
      → IsValid b
      → length (remaining b) < max_buff_size
      → write_fd s (remaining b) ≡ ok (n, s')
      → (b' : RdonBuffer) × (write mach (sending c s b true)
          ≡ ok (write_ready, sending c s' b' false))
  unfolding write write_chunk written unlock Rdon.ready
  write_last mach b s s' n v h w = (
    record b { pos = b.pos + min 1024 (length (remaining b)) },
    rw
        (
          write,
          read-eq b 1024 v (omega arith),
          take_all 1024 (remaining b) (omega arith),
          write_chunk,
          ne→== (length (remaining b)) 1024 (λ e. omega (arith, e)),
          w,
          written,
          Rdon.ready,
          done,
        )
        refl,
  )
    where
      done : (b.pos + min 1024 (length (remaining b)) == b.size) ≡ true
      done = eq→== _ _ (omega (arith, length-drop b.pos b.str, v.whole, v.inside))

  -- A write of a whole chunk, full or not, where the byte behind the array is free.
  pub write_slack :
      (mach : Machine) (b : RdonBuffer) (s : Stream) (ws : List Write)
      → mach.slack ≡ true
      → IsValid b
      → s.writes ≡ Write.all ∷ ws
      → let s' = record s { writes = ws; sent = s.sent ++ take 1024 (remaining b) } in
        write mach (sending c s b true) ≡ (
          if ltb 1024 (length (remaining b))
          then ok (write_pending, sending c s' (further b) true)
          else ok (write_ready, sending c s' (further b) false))
  unfolding write write_chunk written unlock Rdon.ready
  write_slack mach b s ws sl v e =
      rw
        (
          write,
          read-eq b 1024 v (omega arith),
          write_chunk,
          sl,
          and_false (length (take 1024 (remaining b)) == 1024),
          write_fd_all s (take 1024 (remaining b)) ws e,
          written,
          Rdon.ready,
        )
        (elim (Bool-cases (ltb 1024 (length (remaining b)))) [
          | inl q ↦
              rw
                (
                  q,
                  ne→== (b.pos + min 1024 (length (remaining b))) b.size
                      (λ r. ground (arith, left, v.inside, q, r)),
                )
                refl
          | inr q ↦
              rw
                (
                  q,
                  eq→== (b.pos + min 1024 (length (remaining b))) b.size
                      (ground (arith, left, v.inside, q)),
                )
                refl
        ])
    where
      left : length (remaining b) ≡ b.size - b.pos
      left = omega (arith, length-drop b.pos b.str, v.whole)

  -- A full array is written over, where the byte behind it is not free.
  pub write_full :
      (b : RdonBuffer) (s : Stream)
      → IsValid b
      → max_buff_size ≤ length (remaining b)
      → write strict (sending c s b true) ≡ stop (Stop.fault Fault.overrun)
  unfolding write write_chunk
  write_full b s v h =
      rw
        (
          write,
          read-eq b 1024 v (omega arith),
          write_chunk,
          eq→== (length (take 1024 (remaining b))) 1024
              (omega (arith, length-take 1024 (remaining b))),
        )
        refl

  -- A write of a chunk that is not the last.
  pub write_part :
      (mach : Machine) (k : ℕ) (b : RdonBuffer) (s : Stream) (ws : List Write)
      → mach.slack ≡ true
      → IsValid b
      → suc (suc k) ≡ chunks (length (remaining b))
      → s.writes ≡ Write.all ∷ ws
      → let s' = record s { writes = ws; sent = s.sent ++ take 1024 (remaining b) } in
        (write mach (sending c s b true) ≡ ok (write_pending, sending c s' (further b) true))
        × (take 1024 (remaining b) ++ remaining (further b) ≡ remaining b)
        × IsValid (further b)
        × (suc k ≡ chunks (length (remaining (further b))))
  write_part mach k b s ws sl v e w = (
    rw (write_slack mach b s ws sl v w, long) refl,
    next.0,
    next.4,
    omega (
      arith,
      e,
      next.1,
      length-append (take 1024 (remaining b)) (remaining (further b)),
      ap length next.0,
    ),
  )
    where
      long : ltb 1024 (length (remaining b)) ≡ true
      long = ground (arith, e)

      next :
          (take 1024 (remaining b) ++ remaining (further b) ≡ remaining b)
          × (length (take 1024 (remaining b)) ≡ min 1024 (length (remaining b)))
          × ((further b).str ≡ b.str)
          × ((further b).pos ≡ b.pos + length (take 1024 (remaining b)))
          × IsValid (further b)
      next = rw (read-eq b 1024 v (omega arith)) at (read_lem b 1024 v (omega arith))

  -- The rest of a message goes out chunk by chunk.
  pub writes_all :
      (mach : Machine) (k : ℕ) (b : RdonBuffer) (s : Stream) (ws : List Write)
      → mach.slack ≡ true
      → IsValid b
      → suc k ≡ chunks (length (remaining b))
      → s.writes ≡ replicate (suc k) Write.all ++ ws
      → (b' : RdonBuffer) × (writes mach (suc k) (sending c s b true)
          ≡ ok (
            write_ready,
            sending c (record s { writes = ws; sent = s.sent ++ remaining b }) b' false,
          ))
  unfolding writes
  writes_all mach zero b s ws sl v e w = (
    further b,
    rw (write_slack mach b s ws sl v w, short, take_all 1024 (remaining b) (omega (arith, e))) refl,
  )
    where
      short : ltb 1024 (length (remaining b)) ≡ false
      short = ground (arith, e)
  writes_all mach (suc k) b s ws sl v e w =
      let (step, joined, v', e') =
        write_part mach k b s (replicate (suc k) Write.all ++ ws) sl v e w in
      let (b', rest) =
        writes_all mach k (further b)
          (record s {
            writes = replicate (suc k) Write.all ++ ws;
            sent = s.sent ++ take 1024 (remaining b);
          })
          ws sl v' e' refl in
      (
        b',
        rw step (
            rest
            ∙ ap (λ t. ok (write_ready, sending c (record s { writes = ws; sent = t }) b' false))
                (append_assoc s.sent (take 1024 (remaining b)) (remaining (further b))
                  ∙ ap (λ t. s.sent ++ t) joined)),
      )

-- The first of several writes that end a message.
pub writes-first :
    (mach : Machine) (k : ℕ) (c c' : Channel)
    → writes mach (suc k) c ≡ ok (write_ready, c')
    → (write mach c ≡ ok (write_ready, c'))
      ⊎ ((c'' : Channel) × (write mach c ≡ ok (write_pending, c''))
          × (writes mach k c'' ≡ ok (write_ready, c')))
unfolding writes more
writes-first mach k c c' = first (write mach c) refl
  where
    first :
        (r : Result (State × Channel))
        → write mach c ≡ r
        → more r (writes mach k) ≡ ok (write_ready, c')
        → (write mach c ≡ ok (write_ready, c'))
          ⊎ ((c'' : Channel) × (write mach c ≡ ok (write_pending, c''))
              × (writes mach k c'' ≡ ok (write_ready, c')))
    first (ok (write_pending, c'')) e h = inr (c'', e, h)
    first (ok (broken, c'')) e h = inl (e ∙ h)
    first (ok (closed, c'')) e h = inl (e ∙ h)
    first (ok (read_ready, c'')) e h = inl (e ∙ h)
    first (ok (read_pending, c'')) e h = inl (e ∙ h)
    first (ok (write_ready, c'')) e h = inl (e ∙ h)
    first (stop q) e h = inl (e ∙ h)
