-- ===== src/Stream.antt =====
-- One connected socket: the results of the read and write calls on it, in the order of the calls,
-- and the bytes that were written. The loops below are those of SockClient::_send and
-- Connection::_send, and of SockClient::_recv and Connection::_recv.
pub mod Sending
pub mod Receiving
pub mod Size
pub mod Reads
use json_rpc.Common.{
  ℕ, zero, suc, ◌+◌, ◌-◌, ◌%◌, ◌^◌, List, [], ◌∷◌, ◌++◌, Bool, true, false, Option, leb, ltb, ◌==◌,
  if◌then◌else◌, length, take, drop, min, map, some, replicate, none,
}
use json_rpc.Common.Int.{ℤ, pos, negsuc, int_of_size}
use json_rpc.Errors.{Result, ok, stop, Stop, Fault, Exception, ◌>>=◌}
use json_rpc.Buffer.Memory.{Cells}
use json_rpc.Buffer.Memory.Copy.{bytes}
use json_rpc.Buffer.Words.{int_of_bytes}
use json_rpc.Buffer.Rdon.{RdonBuffer}
use json_rpc.Buffer.Rdon
use json_rpc.Buffer.Wron.{WronBuffer}
use json_rpc.Buffer.Wron

-- What read(2) returned: the bytes, none of them at the end of the stream, or -1.
pub data Read : Type 0 where
  got : List ℕ → Read
  read_error : Read

-- What write(2) returned: the count asked for, a smaller number, or -1.
pub data Write : Type 0 where
  all : Write
  took : ℕ → Write
  write_error : Write

pub record Stream : Type 0 where
  pub reads : List Read
  pub writes : List Write
  pub sent : List ℕ

-- write(fd, chunk, len) with its result, as an int. It waits if there is no result for it.
write_with : List Write → Stream → List ℕ → Result (ℤ × Stream)
write_with [] s chunk = stop Stop.waiting
write_with (all ∷ ws) s chunk =
    ok (pos (length chunk), record s { writes = ws; sent = s.sent ++ chunk })
write_with (took n ∷ ws) s chunk =
    let k = min n (length chunk) in
    ok (pos k, record s { writes = ws; sent = s.sent ++ take k chunk })
write_with (write_error ∷ ws) s chunk = ok (negsuc 0, record s { writes = ws })

unfoldable pub write_fd : Stream → List ℕ → Result (ℤ × Stream)
unfolding write_with
write_fd s chunk = write_with s.writes s chunk

abbrev pub max_chunk_size : ℕ
max_chunk_size = 1024

-- The `while (true)` of both `_send`; `judge result len` is what the body does with the result of
-- the write. The fuel is the number of rounds left.
unfoldable pub send_loop :
    (ℤ → ℕ → Result (Unit {0})) → ℕ → RdonBuffer → Stream → Result (Unit {0}) × Stream
send_loop judge zero b s = (stop Stop.waiting, s)
send_loop judge (suc fuel) b s =
    let (chunk, b') = Rdon.read b max_chunk_size in
    if length chunk == 0 then (ok tt, s) else elim (write_fd s chunk) [
      | stop e ↦ (stop e, s)
      | ok (n, s') ↦ elim (judge n (length chunk)) [
        | stop e ↦ (stop e, s')
        | ok _ ↦ send_loop judge fuel b' s'
      ]
    ]

-- Both `_send`: the message behind its length, chunk by chunk. A round takes at least one byte.
unfoldable pub send_text :
    (ℤ → ℕ → Result (Unit {0})) → List ℕ → Stream → Result (Unit {0}) × Stream
send_text judge msg s = elim (Rdon.make_sized_rdon msg (int_of_size (length msg))) [
  | stop e ↦ (stop e, s)
  | ok b ↦ send_loop judge (suc (suc (length b.str))) b s
]

-- The array `chunk` after a read of `bs` into it.
abbrev pub fill : List ℕ → Cells → Cells
fill bs chunk = bytes bs ++ drop (length bs) chunk

-- char chunk[1024], on the stack
abbrev pub new_chunk : Cells
new_chunk = replicate max_chunk_size none

-- One round with n bytes read: copy them, count them. The sum is an `int`.
unfoldable pub absorb : Option ℕ → List ℕ → Cells → WronBuffer → ℕ → Result (WronBuffer × ℕ)
absorb fresh bs chunk wr curr = do
  (wr', _) ← Wron.write fresh wr (fill bs chunk) (length bs)
  if leb (2 ^ 31) (curr + length bs)
      then stop (Stop.fault Fault.overflow)
      else ok (wr', curr + length bs)

-- A round after -1 from read, where the body does not look: the count is converted to `size_t`.
unfoldable pub absorb_error : Option ℕ → Cells → WronBuffer → ℕ → Result (WronBuffer × ℕ)
absorb_error fresh chunk wr curr = do
  (wr', _) ← Wron.write fresh wr chunk (2 ^ 64 - 1)
  ok (wr', (curr + 2 ^ 32 - 1) % 2 ^ 32)

-- The `while (true)` of both `_recv`, which ends when `curr_size == size`. `looks` is whether the
-- body tests for -1; it does so in the client.
unfoldable pub recv_loop :
    Bool → Option ℕ → ℕ → List Read → Cells → WronBuffer → ℕ → Result WronBuffer × List Read
recv_loop looks fresh size [] chunk wr curr = (stop Stop.waiting, [])
recv_loop looks fresh size (got bs ∷ rs) chunk wr curr = elim (absorb fresh bs chunk wr curr) [
  | stop e ↦ (stop e, rs)
  | ok (wr', curr') ↦
      if curr' == size
      then (ok wr', rs)
      else recv_loop looks fresh size rs (fill bs chunk) wr' curr'
]
recv_loop true fresh size (read_error ∷ rs) chunk wr curr =
    (stop (Stop.thrown Exception.read_fail), rs)
recv_loop false fresh size (read_error ∷ rs) chunk wr curr =
    elim (absorb_error fresh chunk wr curr) [
      | stop e ↦ (stop e, rs)
      | ok (wr', curr') ↦
          if curr' == size then (ok wr', rs) else recv_loop false fresh size rs chunk wr' curr'
    ]

-- The four bytes of `size`, of which a read may have set only the first ones; the rest are 0.
unfoldable pub header : List ℕ → ℤ
header (a ∷ b ∷ c ∷ d ∷ _) = int_of_bytes a b c d
header (a ∷ b ∷ c ∷ []) = int_of_bytes a b c 0
header (a ∷ b ∷ []) = int_of_bytes a b 0 0
header (a ∷ []) = int_of_bytes a 0 0 0
header [] = pos 0
