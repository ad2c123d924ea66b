-- ===== src/Common/Int.antt =====
-- Signed integers, as constructors: a Go `int` that is only tested for its sign and then counted with.
use Prim.Native.Nat.{ℕ}

-- `negsuc n` is -(n + 1).
pub data ℤ : Type 0 where
  pos : ℕ → ℤ
  negsuc : ℕ → ℤ
