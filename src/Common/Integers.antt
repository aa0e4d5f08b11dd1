-- ===== src/Common/Integers.antt =====
-- Integers that come from a client, where only the sign and the order with a number matter.
use Prim.Native.Nat.{ℕ}

-- `negsuc n` is -(n + 1).
pub data ℤ : Type 0 where
  pos : ℕ → ℤ
  negsuc : ℕ → ℤ
