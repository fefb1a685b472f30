-- ===== src/Base/Int.antt =====
-- `i64` and `i32`: signed integers, and the truncating cast between them.
use Prim.Native.Nat.{ℕ, ◌-◌, ◌%◌, ◌^◌}
use flowd.Base.Tests.{ltb, if◌then◌else◌}

-- `negsuc n` is -(n + 1).
pub data ℤ : Type 0 where
  pos : ℕ → ℤ
  negsuc : ℕ → ℤ

-- The bits below 2^32 read as two's complement.
abbrev pub from_bits32 : ℕ → ℤ
from_bits32 n = if ltb n (2 ^ 31) then pos n else negsuc (2 ^ 32 - 1 - n)

-- `x as i32`.
unfoldable pub as_i32 : ℤ → ℤ
as_i32 (pos n) = from_bits32 (n % 2 ^ 32)
as_i32 (negsuc n) = from_bits32 (2 ^ 32 - 1 - n % 2 ^ 32)
