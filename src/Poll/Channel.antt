-- ===== src/Poll/Channel.antt =====
-- class Channel of src/json-rpc/pollserver.cpp: a connection that is read and written a piece at a
-- time. `fresh` is what the allocator leaves in new memory.
pub mod Receiving
pub mod Messages
pub mod Writing
pub mod Sending
pub mod Managed
use json_rpc.Common.{
  ℕ, suc, ◌-◌, ◌^◌, List, [], ◌∷◌, ◌++◌, Bool, true, false, not, ◌&&◌, Option, none, some, ◌==◌,
  if◌then◌else◌, length,
}
use json_rpc.Common.Int.{ℤ, pos, negsuc, int_of_size}
use json_rpc.Errors.{Result, ok, stop, Stop, Fault, ◌>>=◌}
use json_rpc.Buffer.Memory.{Cells, c_text}
use json_rpc.Buffer.Rdon.{RdonBuffer}
use json_rpc.Buffer.Rdon
use json_rpc.Buffer.Wron.{WronBuffer, make_wron_sized, write_sized}
use json_rpc.Buffer.Wron
use json_rpc.Stream.{Stream, Read, got, read_error, write_fd, fill, new_chunk, header}
use json_rpc.Poll.Manager.{PollManager, writing, watch}

-- What the machine does where C++ leaves it open: the memory behind an array of the heap, whether
-- the byte behind an array on the stack is free, and whether unlocking a mutex that is not locked
-- does nothing.
pub record Machine : Type 0 where
  pub beyond : Cells
  pub slack : Bool
  pub forgiving : Bool

-- Nothing of the kind may be relied on.
abbrev pub strict : Machine
strict = record { beyond = []; slack = false; forgiving = false }

abbrev pub max_buff_size : ℕ
max_buff_size = 1024

-- Channel::State
pub data State : Type 0 where
  broken closed read_pending read_ready write_pending write_ready : State

-- The buffers are null at first. `send_locked` is `_send_mutex`.
pub record Channel : Type 0 where
  pub read_buffer : Option RdonBuffer
  pub write_buffer : Option WronBuffer
  pub send_locked : Bool
  pub alive : Bool
  pub busy : Bool
  pub stream : Stream

-- Channel(sock, server)
abbrev pub make_channel : Stream → Channel
make_channel stream = record {
  read_buffer = none;
  write_buffer = none;
  send_locked = false;
  alive = true;
  busy = false;
  stream = stream;
}

abbrev with_reads : List Read → Channel → Channel
with_reads rs c = record c { stream = record c.stream { reads = rs } }

-- The end of read: is the message whole?
filled : Result (WronBuffer × ℕ) → Channel → Result State × Channel
filled (stop e) c = (stop e, c)
filled (ok (wr, n)) c =
    if Wron.ready wr
    then (ok read_ready, record c { write_buffer = some wr; busy = true })
    else (ok read_pending, record c { write_buffer = some wr })

-- The read of a chunk. The number -1 of a read that fails, or finds nothing, becomes a `size_t`.
read_chunk : List Read → WronBuffer → Channel → Result State × Channel
unfolding filled
read_chunk [] wr c = (stop Stop.waiting, c)
read_chunk (got bs ∷ rs) wr c =
    filled (write_sized wr (fill bs new_chunk) (length bs)) (with_reads rs c)
read_chunk (read_error ∷ rs) wr c = filled (write_sized wr new_chunk (2 ^ 64 - 1)) (with_reads rs c)

-- The new buffer for a message of the given size.
start_message : Option ℕ → ℤ → List Read → Channel → Result State × Channel
unfolding read_chunk
start_message fresh (pos (suc n)) rs c = elim (make_wron_sized fresh (suc n)) [
  | stop e ↦ (stop e, c)
  | ok wr ↦ read_chunk rs wr (record c { write_buffer = some wr })
]
start_message fresh _ rs c = (ok broken, record c { busy = true })

-- The read of the size.
read_size : Option ℕ → List Read → Channel → Result State × Channel
unfolding start_message
read_size fresh [] c = (stop Stop.waiting, c)
read_size fresh (read_error ∷ rs) c = (ok broken, record (with_reads rs c) { busy = true })
read_size fresh (got [] ∷ rs) c = (ok closed, with_reads rs c)
read_size fresh (got (b ∷ bs) ∷ rs) c =
    if length (b ∷ bs) == 4
    then start_message fresh (header (b ∷ bs)) rs (with_reads rs c)
    else (ok broken, record (with_reads rs c) { busy = true })

-- Channel::read. A channel that is busy waits for clear_msg.
unfoldable pub read : Option ℕ → Channel → Result State × Channel
unfolding read_size read_chunk
read fresh c = if c.busy then (stop Stop.waiting, c) else elim c.write_buffer [
  | none ↦ read_size fresh c.stream.reads c
  | some wr ↦ read_chunk c.stream.reads wr c
]

-- _send_mutex.unlock()
unlock : Machine → Channel → Result Channel
unlock mach c =
    if c.send_locked
    then ok (record c { send_locked = false })
    else if mach.forgiving
    then ok c
    else stop (Stop.fault Fault.bad_unlock)

-- What follows ::write, whose result nobody reads.
written : Machine → Channel → RdonBuffer → Result (State × Channel)
unfolding unlock
written mach c b =
    if Rdon.ready b then (do c' ← unlock mach c; ok (write_ready, c')) else ok (write_pending, c)

-- `chunk[len] = '\0'` is outside of the array if it is full.
write_chunk : Machine → Channel → List ℕ → RdonBuffer → Result (State × Channel)
unfolding written
write_chunk mach c chunk b =
    if length chunk == max_buff_size && not mach.slack then stop (Stop.fault Fault.overrun) else (do
      (_, stream) ← write_fd c.stream chunk
      written mach (record c { stream = stream; read_buffer = some b }) b)

-- Channel::write
unfoldable pub write : Machine → Channel → Result (State × Channel)
unfolding write_chunk
write mach c = elim c.read_buffer [
  | none ↦ ok (write_pending, c)
  | some b ↦ let (chunk, b') = Rdon.read b max_buff_size in write_chunk mach c chunk b'
]

-- The end of send: ask for the rest of the writing, or unlock.
after_write : Machine → ℤ → PollManager → State × Channel → Result (Channel × PollManager)
unfolding unlock
after_write mach sock m (write_ready, c) = do c' ← unlock mach c; ok (c', m)
after_write mach sock m (_, c) = do m' ← watch sock writing m; ok (c, m')

-- What send does with a channel that is alive.
start_send : Machine → ℤ → List ℕ → Channel → PollManager → Result (Channel × PollManager)
unfolding after_write
start_send mach sock msg c m = do
  b ← Rdon.make_sized_rdon msg (int_of_size (length msg))
  r ← write mach (record c { send_locked = true; read_buffer = some b })
  after_write mach sock m r

-- Channel::send
unfoldable pub send : Machine → ℤ → List ℕ → Channel → PollManager → Result (Channel × PollManager)
unfolding start_send
send mach sock msg c m =
    if c.send_locked
    then stop Stop.waiting
    else if c.alive
    then start_send mach sock msg c m
    else ok (c, m)

-- Channel::close, which takes the lock of send. Between two events a lock is held only for an answer
-- that is sent in part, which the loop, the caller of close, goes on with when the socket is writable:
-- nobody else releases it.
unfoldable pub close : Channel → Result Channel
close c = if c.send_locked then stop Stop.waiting else ok (record c { alive = false })

-- ~Channel
unfoldable pub destroy_channel : Channel → Result Channel
unfolding close
destroy_channel c = if c.alive then close c else ok c

-- Channel::get_msg
unfoldable pub get_msg : Machine → Channel → Result (List ℕ)
get_msg mach c = elim c.write_buffer [ none ↦ ok [] | some wr ↦ c_text (wr.cells ++ mach.beyond) ]

-- Channel::clear_msg
unfoldable pub clear_msg : Channel → Channel
clear_msg c = record c { write_buffer = none; busy = false }
