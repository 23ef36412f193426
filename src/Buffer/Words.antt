-- ===== src/Buffer/Words.antt =====
-- Arithmetic of `size_t`, and the four bytes of an `int` as the machine stores them (low byte
-- first).
use json_rpc.Common.{ℕ, ◌+◌, ◌-◌, ◌*◌, ◌/◌, ◌%◌, ◌^◌, List, [], ◌∷◌}
use json_rpc.Common.Int.{ℤ, signed32, low32}

abbrev pub kb : ℕ
kb = 1024

abbrev pub add_size : ℕ → ℕ → ℕ
add_size a b = (a + b) % 2 ^ 64

abbrev pub sub_size : ℕ → ℕ → ℕ
sub_size a b = (a + 2 ^ 64 - b) % 2 ^ 64

-- *(int*)p = z
unfoldable pub int_bytes : ℤ → List ℕ
int_bytes z = let w = low32 z in w % 256 ∷ w / 256 % 256 ∷ w / 65536 % 256 ∷ w / 16777216 % 256 ∷ []

-- The int that four bytes hold.
unfoldable pub int_of_bytes : ℕ → ℕ → ℕ → ℕ → ℤ
int_of_bytes a b c d = signed32 (a + 256 * b + 65536 * c + 16777216 * d)
