-- ===== src/Base/Integers.antt =====
-- The signed machine integers of the code, an `int` that no operation takes out of its range.
use Prim.Native.Nat.{ℕ}

-- `negsuc n` is -(n + 1).
pub data ℤ : Type 0 where
  pos : ℕ → ℤ
  negsuc : ℕ → ℤ
