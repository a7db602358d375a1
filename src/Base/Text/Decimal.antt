-- ===== src/Base/Text/Decimal.antt =====
-- `%d` of a number that is not negative, and that distinct numbers print differently.
use Prim.Native.Char.{code}
use Prim.Native.Nat.{ℕ, zero, suc, ◌+◌, ◌-◌, ◌*◌, ◌/◌, ◌%◌, ◌<◌}
use Prim.Native.String.{String, [], ◌∷◌, ◌++◌}
use mathlib.Core.Path.{◌≡◌, sym, ◌∙◌, ap}
use mathlib.Core.Logic.{inl, inr}
use native.Mathlib.Omega.{arith}
use text.Mathlib.TextLemmas.{nil-append, cons-append}
use pbs_k8s_operator.Base.Tests.{ltb, if◌then◌else◌, Bool-cases, ltb→lt}

-- The digits 0 to 9; no other number is printed as one digit.
digit : ℕ → String
digit zero = "0"
digit (suc zero) = "1"
digit (suc (suc zero)) = "2"
digit (suc (suc (suc zero))) = "3"
digit (suc (suc (suc (suc zero)))) = "4"
digit (suc (suc (suc (suc (suc zero))))) = "5"
digit (suc (suc (suc (suc (suc (suc zero)))))) = "6"
digit (suc (suc (suc (suc (suc (suc (suc zero))))))) = "7"
digit (suc (suc (suc (suc (suc (suc (suc (suc zero)))))))) = "8"
digit n = "9"

decimal_fuel : ℕ → ℕ → String
decimal_fuel zero n = []
decimal_fuel (suc f) n =
    let rest = decimal_fuel f (n / 10) in if ltb n 10 then digit n else rest ++ digit (n % 10)

unfoldable pub decimal : ℕ → String
unfolding decimal_fuel digit
decimal n = decimal_fuel (suc n) n

value_from : ℕ → String → ℕ
value_from acc [] = acc
value_from acc (c ∷ s) = value_from (acc * 10 + (code c - b'0')) s

value_from-append :
    (acc : ℕ) (s t : String) → value_from acc (s ++ t) ≡ value_from (value_from acc s) t
unfolding value_from
value_from-append acc [] t = rw nil-append
value_from-append acc (c ∷ s) t =
    rw cons-append (value_from-append (acc * 10 + (code c - b'0')) s t)

value_from-digit : (acc d : ℕ) → d < 10 → value_from acc (digit d) ≡ acc * 10 + d
unfolding value_from digit
value_from-digit acc zero h = omega arith
value_from-digit acc (suc zero) h = omega arith
value_from-digit acc (suc (suc zero)) h = omega arith
value_from-digit acc (suc (suc (suc zero))) h = omega arith
value_from-digit acc (suc (suc (suc (suc zero)))) h = omega arith
value_from-digit acc (suc (suc (suc (suc (suc zero))))) h = omega arith
value_from-digit acc (suc (suc (suc (suc (suc (suc zero)))))) h = omega arith
value_from-digit acc (suc (suc (suc (suc (suc (suc (suc zero))))))) h = omega arith
value_from-digit acc (suc (suc (suc (suc (suc (suc (suc (suc zero)))))))) h = omega arith
value_from-digit acc (suc (suc (suc (suc (suc (suc (suc (suc (suc n))))))))) h = omega arith

value_from-decimal_fuel : (f n : ℕ) → n < f → value_from 0 (decimal_fuel f n) ≡ n
unfolding decimal_fuel
value_from-decimal_fuel zero n h = elim h [ ]
value_from-decimal_fuel (suc f) n h = elim (Bool-cases (ltb n 10)) [
  | inl small ↦ rw small (omega (arith, value_from-digit 0 n (ltb→lt n 10 small)))
  | inr large ↦
      let k : n / 10 < f = ground arith in
      rw (large, value_from-append)
        (omega (
          arith,
          value_from-decimal_fuel f (n / 10) k,
          value_from-digit (value_from 0 (decimal_fuel f (n / 10))) (n % 10) (omega arith),
        ))
]

-- Reading the decimal digits of a number gives the number back.
value-decimal : (n : ℕ) → value_from 0 (decimal n) ≡ n
unfolding decimal
value-decimal n = value_from-decimal_fuel (suc n) n (omega arith)

pub decimal-injective : (m n : ℕ) → decimal m ≡ decimal n → m ≡ n
decimal-injective m n e = sym (value-decimal m) ∙ ap (value_from 0) e ∙ value-decimal n
