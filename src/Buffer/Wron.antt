-- ===== src/Buffer/Wron.antt =====
-- The write-only buffers of include/json-rpc/buffer.hpp. `src` is the array behind the pointer that
-- `write` is given, which may hold more bytes, or fewer, than the count.
pub mod Writing
use json_rpc.Common.{
  ℕ, ◌+◌, ◌%◌, Option, ◌^◌, List, ◌++◌, Bool, some, ltb, leb, ◌==◌, if◌then◌else◌, drop, replicate,
}
use json_rpc.Common.Int.{ℤ, pos, negsuc, int_of_size}
use json_rpc.Errors.{Result, ok, stop, Stop, Fault, ◌>>=◌}
use json_rpc.Buffer.Memory.{Cells, new_cells, memcpy}
use json_rpc.Buffer.Words.{kb, add_size, sub_size}

-- `cells` is the array behind `_write_only_str`.
pub record WronBuffer : Type 0 where
  pub cells : Cells
  pub size : ℕ
  pub pos : ℕ

-- WRONBuffer()
abbrev pub make_wron : Option ℕ → WronBuffer
make_wron fresh = record { cells = new_cells fresh kb; size = kb; pos = 0 }

-- WRONBuffer(size), which is also SizedWRONBuffer(size)
unfoldable pub make_wron_sized : Option ℕ → ℕ → Result WronBuffer
make_wron_sized fresh size =
    if leb size 0
    then stop (Stop.fault Fault.assertion)
    else if leb (2 ^ 63) size
    then stop (Stop.fault Fault.bad_alloc)
    else ok (record { cells = new_cells fresh size; size = size; pos = 0 })

-- The new array of WRONBuffer::write. `_size` stays what it was, and the new size is an `int`.
grown : Option ℕ → ℤ → WronBuffer → Result Cells
grown fresh (pos n) b = memcpy (new_cells fresh n) 0 b.cells b.pos
grown fresh (negsuc n) b = stop (Stop.fault Fault.bad_alloc)

room_for : Option ℕ → WronBuffer → ℕ → Result Cells
unfolding grown
room_for fresh b n =
    let wanted = add_size b.pos n in
    let more = add_size b.size kb in
    if ltb b.size wanted
    then grown fresh (int_of_size (if ltb wanted more then more else wanted)) b
    else ok b.cells

-- WRONBuffer::write(ptr, size)
unfoldable pub write : Option ℕ → WronBuffer → Cells → ℕ → Result (WronBuffer × ℕ)
unfolding room_for
write fresh b src n = do
  cells ← room_for fresh b n
  cells' ← memcpy cells b.pos src n
  ok (record b { cells = cells'; pos = add_size b.pos n }, n)

-- WRONBuffer::reset
unfoldable pub reset : WronBuffer → WronBuffer
reset b = record b { cells = replicate b.size (some 0) ++ drop b.size b.cells; pos = 0 }

-- SizedWRONBuffer::write(ptr, size)
unfoldable pub write_sized : WronBuffer → Cells → ℕ → Result (WronBuffer × ℕ)
write_sized b src n = if b.pos == b.size then ok (b, 0) else do
  let k = if ltb b.size (add_size b.pos n) then sub_size b.size b.pos else n
  cells ← memcpy b.cells b.pos src k
  ok (record b { cells = cells; pos = add_size b.pos k }, k)

-- SizedWRONBuffer::ready
unfoldable pub ready : WronBuffer → Bool
ready b = b.pos == b.size
