-- ===== src/Base/Text/Splits.antt =====
-- The parts of a text at a separator, where they do not hold it.
use Prim.Native.Char.{Char, code}
use Prim.Native.Nat.{ℕ}
use Prim.Native.String.{String, [], ◌∷◌}
use mathlib.Core.Bool.{true, false}
use mathlib.Core.List.{List, [], ◌∷◌}
use mathlib.Core.Path.{◌≡◌, refl, ap, ◌∙◌}
use text.Mathlib.TextLemmas.{nil-append, cons-append}
use pbs_k8s_operator.Base.Tests.{eqb}
use pbs_k8s_operator.Base.Lists.{All}
use pbs_k8s_operator.Base.Text.{◌+++◌, split, join}

-- A text without the character of a code.
abbrev pub Free : ℕ → String → Type 0
Free n [] = Unit
Free n (c ∷ s) = (eqb (code c) n ≡ false) × Free n s

-- A separator of one character.
abbrev pub sole : Char → String
sole c = c ∷ []

pub split-append :
    (n : ℕ) (sep : Char) (a b : String)
    → eqb (code sep) n ≡ true
    → Free n a
    → split n (a +++ sole sep +++ b) ≡ a ∷ split n b
unfolding split
split-append n sep [] b e h = rw (nil-append, cons-append, nil-append) (rw e refl)
split-append n sep (c ∷ a) b e (h, hs) = rw cons-append (rw (h, split-append n sep a b e hs) refl)

pub split-Free : (n : ℕ) (a : String) → Free n a → split n a ≡ a ∷ []
unfolding split
split-Free n [] h = refl
split-Free n (c ∷ a) (h, hs) = rw (h, split-Free n a hs) refl

-- Joining and splitting again.
pub split-join :
    (n : ℕ) (sep : Char) (x : String) (xs : List String)
    → eqb (code sep) n ≡ true
    → Free n x
    → All (Free n) xs
    → split n (join (sole sep) (x ∷ xs)) ≡ x ∷ xs
unfolding join
split-join n sep x [] e h hs = split-Free n x h
split-join n sep x (y ∷ ys) e h (hy, hs) =
    split-append n sep x (join (sole sep) (y ∷ ys)) e h
    ∙ ap (λ (l : List String). x ∷ l) (split-join n sep y ys e hy hs)
