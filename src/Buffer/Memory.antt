-- ===== src/Buffer/Memory.antt =====
-- Arrays of `char`. A cell that holds no determinate value is `none`.
pub mod Copy
use json_rpc.Common.{
  ℕ, ◌+◌, List, [], ◌∷◌, ◌++◌, Option, none, some, leb, take, drop, length, replicate,
  if◌then◌else◌, ◌==◌, ◌&&◌,
}
use json_rpc.Errors.{Result, ok, stop, Stop, Fault, ◌>>=◌}

abbrev pub Cells : Type 0
Cells = List (Option ℕ)

-- new char[n], where `fresh` is what the allocator leaves in a cell: `none` if that is unspecified,
-- as in C++, and `some 0` for an allocator that hands out zeroed memory.
abbrev pub new_cells : Option ℕ → ℕ → Cells
new_cells fresh n = replicate n fresh

-- memcpy(dst + at, src, n): a fault if it leaves either array.
unfoldable pub memcpy : Cells → ℕ → Cells → ℕ → Result Cells
memcpy dst at src n =
    if leb n (length src) && leb (at + n) (length dst)
    then ok (take at dst ++ (take n src ++ drop (at + n) dst))
    else stop (Stop.fault Fault.overrun)

-- The text that a `const char*` at the start of the array denotes: up to the first zero byte.
unfoldable pub c_text : Cells → Result (List ℕ)
c_text [] = stop (Stop.fault Fault.overrun)
c_text (none ∷ cells) = stop (Stop.fault Fault.indeterminate)
c_text (some b ∷ cells) =
    let rest = c_text cells in if b == 0 then ok [] else (do bs ← rest; ok (b ∷ bs))

-- The bytes of the first n cells, as `std::string(p, n)` takes them.
unfoldable pub text_of : ℕ → Cells → Result (List ℕ)
text_of ℕ.zero cells = ok []
text_of (ℕ.suc n) [] = stop (Stop.fault Fault.overrun)
text_of (ℕ.suc n) (none ∷ cells) = stop (Stop.fault Fault.indeterminate)
text_of (ℕ.suc n) (some b ∷ cells) = do bs ← text_of n cells; ok (b ∷ bs)
