-- ===== src/Base/Fresh.antt =====
-- Lists of different texts.
use Prim.Native.String.{String}
use mathlib.Core.Logic.{◌≢◌}
use mathlib.Core.List.{List, [], ◌∷◌, ◌++◌}
use pbs_k8s_operator.Base.Lists.{All, All-append}

abbrev pub Distinct : List String → Type 0
Distinct [] = Unit
Distinct (x ∷ xs) = All (λ y. x ≢ y) xs × Distinct xs

pub Distinct-concat :
    (xs : List String) (s : String)
    → Distinct xs
    → All (λ (y : String). y ≢ s) xs
    → Distinct (xs ++ s ∷ [])
Distinct-concat [] s d n = (tt, tt)
Distinct-concat (x ∷ xs) s (fresh, d) (ne, n) =
    (All-append (λ (y : String). x ≢ y) xs (s ∷ []) fresh (ne, tt), Distinct-concat xs s d n)
