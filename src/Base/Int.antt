-- ===== src/Base/Int.antt =====
-- The integers, with `negsuc n` for -(n + 1).
use Prim.Native.Nat.{ℕ}

pub data ℤ : Type 0 where
  pos : ℕ → ℤ
  negsuc : ℕ → ℤ
