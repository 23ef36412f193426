-- ===== src/Stream/Size.antt =====
-- The four bytes of a size, as the receiver reads them.
use json_rpc.Common.{ℕ, ◌^◌, ◌<◌, ◌≡◌, arith, length}
use json_rpc.Common.Int.{pos}
use json_rpc.Buffer.Words.{int_bytes, int_of_bytes}
use json_rpc.Stream.{header}

pub header-int_bytes : (n : ℕ) → n < 2 ^ 31 → header (int_bytes (pos n)) ≡ pos n
unfolding header int_bytes int_of_bytes
header-int_bytes n h = ground arith

pub length-int_bytes : (n : ℕ) → length (int_bytes (pos n)) ≡ 4
unfolding int_bytes
length-int_bytes n = omega arith
