-- ===== src/Base/Int.antt =====
-- Signed numbers, as the sources read them before a test for their sign.
use Prim.Native.Nat.{ℕ}

-- `negsuc n` is -(n + 1).
pub data ℤ : Type 0 where
  pos : ℕ → ℤ
  negsuc : ℕ → ℤ
