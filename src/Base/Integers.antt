-- ===== src/Base/Integers.antt =====
-- Go's int and its kin, without a bound: a number or a negative one.
use Prim.Native.Nat.{ℕ, zero}
use mathlib.Core.Bool.{Bool, true, false}

-- `negsuc n` is minus one more than `n`.
pub data ℤ : Type 0 where
  pos negsuc : ℕ → ℤ

abbrev pub is_zero : ℤ → Bool
is_zero (pos zero) = true
is_zero _ = false
