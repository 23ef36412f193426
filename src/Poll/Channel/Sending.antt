-- ===== src/Poll/Channel/Sending.antt =====
-- What a channel sends.
use json_rpc.Common.{
  ℕ, suc, ◌+◌, ◌^◌, ◌<◌, ◌≡◌, ◌≢◌, refl, ap, ◌∙◌, arith, List, [], ◌++◌, true, false, if◌then◌else◌,
  length, take, replicate, append_assoc, ltb, Bool-cases, inl, inr,
}
use json_rpc.Common.Int.{ℤ, pos}
use json_rpc.Errors.{ok, stop, Stop, Fault, ◌>>=◌}
use json_rpc.Buffer.Words.{int_bytes}
use json_rpc.Buffer.Rdon.{RdonBuffer}
use json_rpc.Buffer.Rdon.Reading.{
  remaining, make_sized_rdon_lem, sized, sized-IsValid, length-sized,
}
use json_rpc.Stream.{Stream, Write, write_fd}
use json_rpc.Stream.Sending.{chunks}
use json_rpc.Poll.Manager.{PollManager, writing, watch}
use json_rpc.Poll.Channel.{
  Machine, strict, write_ready, Channel, unlock, write_chunk, write, after_write, start_send, send,
}
use json_rpc.Poll.Channel.Writing.{
  sending, writes, further, write_last, write_full, write_part, writes_all,
}

module _ (c : Channel) (sock : ℤ) (msg : List ℕ) (m : PollManager) (open_ : c.alive ≡ true)
    (idle : c.send_locked ≡ false) (some_text : msg ≢ []) (fits : length msg < 2 ^ 31) where
  -- The first write of a message, and what send makes of it.
  send-write :
      (mach : Machine)
      → send mach sock msg c m
        ≡ (write mach (sending c c.stream (sized msg) true) >>= after_write mach sock m)
  unfolding send start_send
  send-write mach = rw (send, start_send, idle, open_, make_sized_rdon_lem msg some_text fits) refl

  -- Where nothing may be relied on that C++ leaves undefined, every send of a text that is not
  -- empty and shorter than 2 ^ 31 bytes, on a channel that is alive and not in a send, goes wrong:
  -- below 1020 bytes, whatever the socket takes, a mutex is unlocked that is not locked, and from
  -- there on a byte is written behind an array.
  pub send-strict :
      (n : ℤ) (s' : Stream)
      → write_fd c.stream (int_bytes (pos (length msg)) ++ msg) ≡ ok (n, s')
      → send strict sock msg c m
        ≡ stop (Stop.fault (if ltb (length msg) 1020 then Fault.bad_unlock else Fault.overrun))
  unfolding write write_chunk after_write unlock
  send-strict n s' w = elim (Bool-cases (ltb (length msg) 1020)) [
    | inl short ↦ rw short (
        send-write strict
        ∙ ap (λ r. r >>= after_write strict sock m)
            (write_last c strict (sized msg) c.stream s' n (sized-IsValid msg fits)
              (ground (arith, length-sized msg, short)) w).1)
    | inr long ↦ rw long (
        send-write strict
        ∙ ap (λ r. r >>= after_write strict sock m)
            (write_full c (sized msg) c.stream (sized-IsValid msg fits)
              (ground (arith, length-sized msg, long))))
  ]

  -- A short send, whatever the socket takes of it, counts as sent and leaves the channel unlocked,
  -- where an unlock without a lock does nothing.
  pub send_short :
      (mach : Machine) (n : ℤ) (s' : Stream)
      → mach.forgiving ≡ true
      → length msg < 1020
      → write_fd c.stream (int_bytes (pos (length msg)) ++ msg) ≡ ok (n, s')
      → (b : RdonBuffer) × (send mach sock msg c m ≡ ok (sending c s' b false, m))
  unfolding after_write unlock
  send_short mach n s' f short w =
      let (b, e) =
        write_last c mach (sized msg) c.stream s' n (sized-IsValid msg fits)
          (omega (arith, length-sized msg)) w in
      (
        b,
        send-write mach
            ∙ ap (λ r. r >>= after_write mach sock m) e
            ∙ rw (after_write, unlock, f) refl,
      )

  -- Where the byte behind an array on the stack is free: on a channel that is alive and not in a
  -- send, a text shorter than 2 ^ 31 bytes that makes two chunks of 1024 bytes or more with its
  -- size, on a socket that takes every chunk whole: send writes the first chunk and asks the
  -- manager for the descriptor to be watched for writing; as many events that find it writable as
  -- there are chunks left end the message, the frame has been sent, and the lock is released.
  pub send_long :
      (mach : Machine) (m' : PollManager) (k : ℕ) (ws : List Write)
      → mach.slack ≡ true
      → watch sock writing m ≡ ok m'
      → chunks (4 + length msg) ≡ suc (suc k)
      → c.stream.writes ≡ replicate (suc (suc k)) Write.all ++ ws
      → (s' : Stream) × (b' b : RdonBuffer) × (send mach sock msg c m
          ≡ ok (sending c s' b' true, m'))
        × (s'.reads ≡ c.stream.reads)
        × (writes mach (suc k) (sending c s' b' true)
            ≡ ok (
              write_ready,
              sending c
                  (record c.stream {
                    writes = ws;
                    sent = c.stream.sent ++ (int_bytes (pos (length msg)) ++ msg);
                  })
                  b
                  false,
            ))
  unfolding after_write
  send_long mach m' k ws sl watched n w =
      let (step, joined, v, e) =
        write_part c mach k (sized msg) c.stream (replicate (suc k) Write.all ++ ws) sl
          (sized-IsValid msg fits) (omega (arith, n, length-sized msg)) w in
      let (b, rest) = writes_all c mach k (further (sized msg)) first ws sl v e refl in
      (
        first,
        further (sized msg),
        b,
        send-write mach
            ∙ ap (λ r. r >>= after_write mach sock m) step
            ∙ rw (after_write, watched) refl,
        refl,
        rest
            ∙ ap
                (λ t.
                  ok (write_ready, sending c (record c.stream { writes = ws; sent = t }) b false))
                (append_assoc c.stream.sent (take 1024 (remaining (sized msg)))
                    (remaining (further (sized msg)))
                  ∙ ap (λ t. c.stream.sent ++ t) joined),
      )
    where
      first : Stream
      first = record c.stream {
        writes = replicate (suc k) Write.all ++ ws;
        sent = c.stream.sent ++ take 1024 (remaining (sized msg));
      }
