-- ===== src/Buffer/Rdon.antt =====
-- The read-only buffers of include/json-rpc/buffer.hpp.
pub mod Reading
use json_rpc.Common.{
  ℕ, ◌+◌, ◌%◌, ◌^◌, List, [], ◌++◌, Bool, ◌&&◌, ltb, leb, ◌==◌, if◌then◌else◌, length, take, drop,
}
use json_rpc.Common.Int.{ℤ, low64}
use json_rpc.Errors.{Result, ok, stop, Stop, Fault, ◌>>=◌}
use json_rpc.Buffer.Words.{add_size, sub_size, int_bytes}

-- `str` holds the bytes behind `_read_only_str`.
pub record RdonBuffer : Type 0 where
  pub str : List ℕ
  pub size : ℕ
  pub pos : ℕ

-- RDONBuffer(str, size): the int becomes a `size_t`, which must not be 0.
unfoldable pub make_rdon : List ℕ → ℤ → Result RdonBuffer
make_rdon str size =
    if ltb 0 (low64 size)
    then ok (record { str = str; size = low64 size; pos = 0 })
    else stop (Stop.fault Fault.assertion)

-- HRDONBuffer(str, size): the same over a copy. An array of 2 ^ 63 bytes is never to be had.
unfoldable pub make_hrdon : List ℕ → ℤ → Result RdonBuffer
unfolding make_rdon
make_hrdon str size = do
  b ← make_rdon str size
  if leb (2 ^ 63) b.size
      then stop (Stop.fault Fault.bad_alloc)
      else if leb b.size (length str)
      then ok (record b { str = take b.size str })
      else stop (Stop.fault Fault.overrun)

-- SizedRDONBuffer(str, size): a copy behind the four bytes of `size`.
unfoldable pub make_sized_rdon : List ℕ → ℤ → Result RdonBuffer
unfolding make_rdon
make_sized_rdon str size = do
  b ← make_rdon str size
  let room = add_size 4 b.size
  if leb (2 ^ 63) room
      then stop (Stop.fault Fault.bad_alloc)
      else if leb b.size (length str) && leb (4 + b.size) room
      then ok (record b { str = int_bytes size ++ take b.size str; size = add_size b.size 4 })
      else stop (Stop.fault Fault.overrun)

-- read(ptr, size): the bytes copied, which are as many as the number returned.
unfoldable pub read : RdonBuffer → ℕ → List ℕ × RdonBuffer
read b n =
    if b.pos == b.size
    then ([], b)
    else let real = if ltb b.size (add_size b.pos n) then sub_size b.size b.pos else n in
      (take real (drop b.pos b.str), record b { pos = add_size b.pos real })

unfoldable pub reset : RdonBuffer → RdonBuffer
reset b = record b { pos = 0 }

-- SizedRDONBuffer::ready
unfoldable pub ready : RdonBuffer → Bool
ready b = b.pos == b.size
