-- ===== src/Common/Int.antt =====
-- Go's `int`, which is never large here.
use Prim.Native.Nat.{ℕ}
use mathlib.Core.Bool.{Bool, true, false}

-- `negsuc n` is -(n + 1).
pub data ℤ : Type 0 where
  pos : ℕ → ℤ
  negsuc : ℕ → ℤ

abbrev pub pos_part : ℤ → ℕ
pos_part (pos n) = n
pos_part (negsuc n) = 0

abbrev pub is_negative : ℤ → Bool
is_negative (pos n) = false
is_negative (negsuc n) = true
