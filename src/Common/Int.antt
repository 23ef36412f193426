-- ===== src/Common/Int.antt =====
-- Signed integers over the native numbers, and the conversions between the machine's integer types.
use Prim.Native.Nat.{ℕ, ◌-◌, ◌%◌, ◌^◌, ◌<◌}
use mathlib.Core.Path.{◌≡◌}
use mathlib.Core.Bool.{Bool, false}
use native.Mathlib.Omega.{arith}
use json_rpc.Common.Tests.{ltb, if◌then◌else◌}

-- `negsuc n` is -(n + 1).
pub data ℤ : Type 0 where
  pos : ℕ → ℤ
  negsuc : ℕ → ℤ

-- The low bits of a two's complement number, as the unsigned number of that width.
abbrev pub low32 : ℤ → ℕ
low32 (pos n) = n % 2 ^ 32
low32 (negsuc n) = 2 ^ 32 - 1 - n % 2 ^ 32

abbrev pub low64 : ℤ → ℕ
low64 (pos n) = n % 2 ^ 64
low64 (negsuc n) = 2 ^ 64 - 1 - n % 2 ^ 64

-- The signed number that a word of 32 or 64 bits stands for.
abbrev pub signed32 : ℕ → ℤ
signed32 w = if ltb w (2 ^ 31) then pos w else negsuc (2 ^ 32 - 1 - w)

abbrev pub signed64 : ℕ → ℤ
signed64 w = if ltb w (2 ^ 63) then pos w else negsuc (2 ^ 64 - 1 - w)

-- Conversion to `int`, `long` and `size_t`.
abbrev pub to_int : ℤ → ℤ
to_int z = signed32 (low32 z)

abbrev pub to_long : ℤ → ℤ
to_long z = signed64 (low64 z)

abbrev pub to_size_t : ℤ → ℕ
to_size_t z = low64 z

-- Conversion of a `size_t` to `int`.
abbrev pub int_of_size : ℕ → ℤ
int_of_size n = signed32 (n % 2 ^ 32)

-- The values of `int`, of `long` and of `size_t`.
abbrev pub IsInt : ℤ → Type 0
IsInt (pos n) = n < 2 ^ 31
IsInt (negsuc n) = n < 2 ^ 31

abbrev pub IsLong : ℤ → Type 0
IsLong (pos n) = n < 2 ^ 63
IsLong (negsuc n) = n < 2 ^ 63

pub to_int_id : (z : ℤ) → IsInt z → to_int z ≡ z
to_int_id (pos n) h = ground arith
to_int_id (negsuc n) h = ground arith

pub to_long_id : (z : ℤ) → IsLong z → to_long z ≡ z
to_long_id (pos n) h = ground arith
to_long_id (negsuc n) h = ground arith

pub to_size_t_id : (n : ℕ) → n < 2 ^ 64 → to_size_t (pos n) ≡ n
to_size_t_id n h = omega arith

-- `z <= 0`, as a test.
abbrev pub is_positive : ℤ → Bool
is_positive (pos n) = ltb 0 n
is_positive (negsuc n) = false
