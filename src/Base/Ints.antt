-- ===== src/Base/Ints.antt =====
-- The `int` of C, without its bound.
use Prim.Native.Nat.{ℕ}

pub data ℤ : Type 0 where
  pos negsuc : ℕ → ℤ
