-- ===== src/Base/Text/Sorts.antt =====
-- A sorted list of texts has the texts of the list.
use Prim.Native.String.{String}
use mathlib.Core.Path.{◌≡◌, refl, ap, sym, ◌∙◌}
use mathlib.Core.Logic.{◌≢◌, inl, inr}
use mathlib.Core.Bool.{Bool, ◌||◌}
use mathlib.Core.List.{List, [], ◌∷◌}
use native.Mathlib.Omega.{arith}
use text.Mathlib.Text.{◌==◌}
use pbs_k8s_operator.Base.Tests.{Bool-cases}
use pbs_k8s_operator.Base.Lists.{All, contains}
use pbs_k8s_operator.Base.Fresh.{Distinct}
use pbs_k8s_operator.Base.Text.{insert, sort_strings, self, str_le}

All-insert :
    (P : String → Type 0) (a : String) (xs : List String)
    → P a
    → All P xs
    → All P (insert self a xs)
unfolding insert
All-insert P a [] p h = (p, tt)
All-insert P a (x ∷ xs) p (px, h) = elim (Bool-cases (str_le a x)) [
  | inl e ↦ rw e (p, (px, h))
  | inr e ↦ rw e (px, All-insert P a xs p h)
]

insert-Distinct :
    (a : String) (xs : List String)
    → All (λ y. a ≢ y) xs
    → Distinct xs
    → Distinct (insert self a xs)
unfolding insert
insert-Distinct a [] f d = (tt, tt)
insert-Distinct a (x ∷ xs) (ne, f) (fx, d) = elim (Bool-cases (str_le a x)) [
  | inl e ↦ rw e ((ne, f), (fx, d))
  | inr e ↦ rw e (All-insert (λ y. x ≢ y) a xs (λ same. ne (sym same)) fx, insert-Distinct a xs f d)
]

sort_strings-All : (P : String → Type 0) (xs : List String) → All P xs → All P (sort_strings xs)
unfolding sort_strings
sort_strings-All P [] h = tt
sort_strings-All P (x ∷ xs) (p, h) = All-insert P x (sort_strings xs) p (sort_strings-All P xs h)

pub sort_strings-Distinct : (xs : List String) → Distinct xs → Distinct (sort_strings xs)
unfolding sort_strings
sort_strings-Distinct [] d = tt
sort_strings-Distinct (x ∷ xs) (f, d) =
    insert-Distinct x (sort_strings xs) (sort_strings-All (λ y. x ≢ y) xs f)
      (sort_strings-Distinct xs d)

contains-insert :
    (a n : String) (xs : List String) → contains (insert self a xs) n ≡ (a == n || contains xs n)
unfolding insert contains
contains-insert a n [] = refl
contains-insert a n (x ∷ xs) = elim (Bool-cases (str_le a x)) [
  | inl e ↦ rw e refl
  | inr e ↦
      rw e (ap (λ b. x == n || b) (contains-insert a n xs) ∙ swap (x == n) (a == n) (contains xs n))
]
  where
    swap : (p q r : Bool) → (p || (q || r)) ≡ (q || (p || r))
    swap p q r = ground arith

pub contains-sort_strings :
    (xs : List String) (n : String) → contains (sort_strings xs) n ≡ contains xs n
unfolding sort_strings contains
contains-sort_strings [] n = refl
contains-sort_strings (x ∷ xs) n =
    contains-insert x n (sort_strings xs) ∙ ap (λ b. x == n || b) (contains-sort_strings xs n)
