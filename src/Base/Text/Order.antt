-- ===== src/Base/Text/Order.antt =====
-- The order of texts: at most one of two is before the other.
use Prim.Native.Nat.compare as compare_ℕ
use Prim.Native.Nat.{ℕ, zero, suc, Ordering, compare as compare_ℕ}
use Prim.Native.Char.{code}
use Prim.Native.String.compare
use Prim.Native.String.{String, [], ◌∷◌, compare, then}
use mathlib.Core.Path.{◌≡◌, refl, sym, ◌∙◌, ap}
use mathlib.Core.Bool.{true, false}
use text.Mathlib.Text.{is_lt, is_eq, ◌==◌}
use pbs_k8s_operator.Base.Text.{str_lt}

abbrev turn : Ordering → Ordering
turn Ordering.lt = Ordering.gt
turn Ordering.eq = Ordering.eq
turn Ordering.gt = Ordering.lt

turn-compare_ℕ : (m n : ℕ) → compare_ℕ n m ≡ turn (compare_ℕ m n)
turn-compare_ℕ zero zero = compare_ℕ.zero-zero ∙ sym (ap turn compare_ℕ.zero-zero)
turn-compare_ℕ zero (suc n) = compare_ℕ.suc-zero n ∙ sym (ap turn (compare_ℕ.zero-suc n))
turn-compare_ℕ (suc m) zero = compare_ℕ.zero-suc m ∙ sym (ap turn (compare_ℕ.suc-zero m))
turn-compare_ℕ (suc m) (suc n) =
    compare_ℕ.suc-suc n m ∙ turn-compare_ℕ m n ∙ sym (ap turn (compare_ℕ.suc-suc m n))

turn-then : (o r : Ordering) → then (turn o) (turn r) ≡ turn (then o r)
turn-then Ordering.lt r = refl
turn-then Ordering.eq r = refl
turn-then Ordering.gt r = refl

turn-compare : (s t : String) → compare t s ≡ turn (compare s t)
turn-compare [] [] = compare.nil-nil ∙ sym (ap turn compare.nil-nil)
turn-compare [] (d ∷ t) = compare.cons-nil d t ∙ sym (ap turn (compare.nil-cons d t))
turn-compare (c ∷ s) [] = compare.nil-cons c s ∙ sym (ap turn (compare.cons-nil c s))
turn-compare (c ∷ s) (d ∷ t) =
    compare.cons-cons d c t s
    ∙ ap (λ o. then o (compare t s)) (turn-compare_ℕ (code c) (code d))
    ∙ ap (then (turn (compare_ℕ (code c) (code d)))) (turn-compare s t)
    ∙ turn-then (compare_ℕ (code c) (code d)) (compare s t)
    ∙ sym (ap turn (compare.cons-cons c d s t))

not_lt_turned : (o : Ordering) → is_lt o ≡ true → is_lt (turn o) ≡ false
not_lt_turned Ordering.lt e = refl
not_lt_turned Ordering.eq e = refl
not_lt_turned Ordering.gt e = sym e

pub str_lt-asym : (s t : String) → str_lt s t ≡ true → str_lt t s ≡ false
str_lt-asym s t e = ap is_lt (turn-compare s t) ∙ not_lt_turned (compare s t) e

is_eq-turn : (o : Ordering) → is_eq (turn o) ≡ is_eq o
is_eq-turn Ordering.lt = refl
is_eq-turn Ordering.eq = refl
is_eq-turn Ordering.gt = refl

pub ==-sym : (s t : String) → (t == s) ≡ (s == t)
==-sym s t = ap is_eq (turn-compare s t) ∙ is_eq-turn (compare s t)
