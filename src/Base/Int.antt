-- ===== src/Base/Int.antt =====
-- Go's signed integers, as far as the modelled code reads them: tests against zero, and the value
-- of one that is not negative.
use Prim.Native.Nat.{ℕ, suc}
use mathlib.Core.Bool.{Bool, true, false}

-- `negsuc n` is -(n + 1).
pub data ℤ : Type 0 where
  pos : ℕ → ℤ
  negsuc : ℕ → ℤ

-- `0 < x`.
abbrev pub is_pos : ℤ → Bool
is_pos (pos ℕ.zero) = false
is_pos (pos (suc n)) = true
is_pos (negsuc n) = false

-- `x` itself where it is not negative, and 0 where it is.
abbrev pub pos_part : ℤ → ℕ
pos_part (pos n) = n
pos_part (negsuc n) = 0
