-- ===== src/Prelude/Int.antt =====
-- Signed words of the source, `isize`, as integers.
use Prim.Native.Nat.{ℕ}

-- `negsuc n` is -(n + 1).
pub data ℤ : Type 0 where
  pos : ℕ → ℤ
  negsuc : ℕ → ℤ
