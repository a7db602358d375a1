-- ===== src/Base/Lists.antt =====
-- Lists measured by native numbers, and predicates over them.
use Prim.Native.Nat.{ℕ, suc, ◌+◌}
use mathlib.Core.Path.{◌≡◌, refl, ap}
use Prim.Native.String.{String}
use mathlib.Core.Logic.{inl, inr}
use mathlib.Core.Bool.{Bool, true, false, ◌&&◌, ◌||◌}
use mathlib.Core.List.{List, [], ◌∷◌, ◌++◌, map}
use native.Mathlib.Omega.{arith}
use text.Mathlib.Text.{◌==◌}
use pbs_k8s_operator.Base.Tests.{if◌then◌else◌, Bool-cases}

module _ {ℓ} {A : Type ℓ} where
  abbrev pub length : List A → ℕ
  length [] = 0
  length (x ∷ xs) = suc (length xs)

  pub length-append : (xs ys : List A) → length (xs ++ ys) ≡ length xs + length ys
  length-append [] ys = omega arith
  length-append (x ∷ xs) ys = omega (arith, length-append xs ys)

  -- The elements that pass a test, in order.
  abbrev pub select : (A → Bool) → List A → List A
  select p [] = []
  select p (x ∷ xs) = let rest = select p xs in if p x then x ∷ rest else rest

  abbrev pub all : (A → Bool) → List A → Bool
  all p [] = true
  all p (x ∷ xs) = p x && all p xs

pub length-map {ℓ κ} :
    {A : Type ℓ} {B : Type κ} (f : A → B) (xs : List A) → length (map f xs) ≡ length xs
length-map f [] = refl
length-map f (x ∷ xs) = ap suc (length-map f xs)

module _ {ℓ κ} {A : Type ℓ} (P : A → Type κ) where
  abbrev pub All : List A → Type κ
  All [] = Unit
  All (x ∷ xs) = P x × All xs

  pub All-append : (xs ys : List A) → All xs → All ys → All (xs ++ ys)
  All-append [] ys hx hy = hy
  All-append (x ∷ xs) ys (h, hx) hy = (h, All-append xs ys hx hy)

  pub All-select : (p : A → Bool) (xs : List A) → ((x : A) → p x ≡ true → P x) → All (select p xs)
  All-select p [] h = tt
  All-select p (x ∷ xs) h = elim (Bool-cases (p x)) [
    | inl e ↦ rw e (h x e, All-select p xs h)
    | inr e ↦ rw e (All-select p xs h)
  ]

-- A list of texts as a set: Go's `map[string]bool`, read.
unfoldable pub contains : List String → String → Bool
contains [] s = false
contains (x ∷ xs) s = x == s || contains xs s

-- The first element of a list that has a property, with the list split at it.
pub record First {ℓ κ} {A : Type ℓ} (P : A → Type κ) (xs : List A) : Type (ℓ ⊔ κ) where
  pub before : List A
  pub found : A
  pub after : List A
  pub split : xs ≡ before ++ found ∷ after
  pub none_before : All (λ a. ¬ P a) before
  pub holds : P found

module _ {ℓ κ} {A : Type ℓ} (P : A → Type κ) (x : A) (xs : List A) where
  abbrev pub First-here : P x → First P (x ∷ xs)
  First-here h = record {
    before = [];
    found = x;
    after = xs;
    split = refl;
    none_before = tt;
    holds = h;
  }

  abbrev pub First-later : ¬ P x → First P xs → First P (x ∷ xs)
  First-later n f = record {
    before = x ∷ f.before;
    found = f.found;
    after = f.after;
    split = ap (λ (l : List A). x ∷ l) f.split;
    none_before = (n, f.none_before);
    holds = f.holds;
  }
