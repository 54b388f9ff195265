-- ===== src/Base/Int.antt =====
-- Go's `int`, where the sign matters: `negsuc n` is -(n + 1).
use Prim.Native.Nat.{ℕ, zero, suc}
use mathlib.Core.Bool.{Bool, true, false}

pub data ℤ : Type 0 where
  pos : ℕ → ℤ
  negsuc : ℕ → ℤ

-- `n == 0`.
abbrev pub is_zero : ℤ → Bool
is_zero (pos zero) = true
is_zero (pos (suc n)) = false
is_zero (negsuc n) = false

-- `n < 1`.
abbrev pub lt_one : ℤ → Bool
lt_one (pos zero) = true
lt_one (pos (suc n)) = false
lt_one (negsuc n) = true
