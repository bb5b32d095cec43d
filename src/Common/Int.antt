-- ===== src/Common/Int.antt =====
-- The integers over the native numbers, under the library's names.
use Prim.Native.Nat.{ℕ}

-- `negsuc m` is -(m + 1).
pub data ℤ : Type 0 where
  pos negsuc : ℕ → ℤ
