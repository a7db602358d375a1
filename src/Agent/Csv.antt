-- ===== src/Agent/Csv.antt =====
-- A list of kinds that is joined by commas is read back by `csv`.
use Prim.Native.Char.{Char, code}
use Prim.Native.String.{String, [], ◌∷◌}
use mathlib.Core.List.{List, [], ◌∷◌}
use text.Mathlib.TextLemmas.{cons-append, cons-ne-nil}
use pbs_k8s_operator.Base.{
  Bool, false, if◌then◌else◌, ==-false_of_ne, ◌≡◌, refl, ap, ◌∙◌, eqb, All, arith, ◌==◌, ◌&&◌,
}
use pbs_k8s_operator.Base.Text.{is_space, is_empty, trim_left, trim_end, trim_space, join}
use pbs_k8s_operator.Base.Text.Splits.{Free, split-join}
use pbs_k8s_operator.Agent.Args.{csv, trim_parts}

-- A text without white space and commas.
abbrev Plain : String → Type 0
Plain [] = Unit
Plain (c ∷ s) = (is_space c ≡ false) × (eqb (code c) b',' ≡ false) × Plain s

-- A word: such a text that is not empty.
abbrev pub IsWord : String → Type 0
IsWord [] = ⊥
IsWord (c ∷ s) = (is_space c ≡ false) × (eqb (code c) b',' ≡ false) × Plain s

Free-Plain : (s : String) → Plain s → Free b',' s
Free-Plain [] h = tt
Free-Plain (c ∷ s) h = (h.1, Free-Plain s h.2)

Free-IsWord : (s : String) → IsWord s → Free b',' s
Free-IsWord [] h = tt
Free-IsWord (c ∷ s) h = (h.1, Free-Plain s h.2)

Free-All : (ks : List String) → All IsWord ks → All (Free b',') ks
Free-All [] h = tt
Free-All (k ∷ ks) (h, hs) = (Free-IsWord k h, Free-All ks hs)

keep_end : (b space : Bool) (s t : String) → space ≡ false → (if b && space then s else t) ≡ t
keep_end b space s t e = ground arith

keep_left : (space : Bool) (s t : String) → space ≡ false → (if space then s else t) ≡ t
keep_left space s t e = rw e

trim_end-cons :
    (c : Char) (s : String)
    → is_space c ≡ false
    → trim_end is_space (c ∷ s) ≡ c ∷ trim_end is_space s
unfolding trim_end
trim_end-cons c s h =
    keep_end (is_empty (trim_end is_space s)) (is_space c) [] (c ∷ trim_end is_space s) h

trim_left-cons : (c : Char) (s : String) → is_space c ≡ false → trim_left (c ∷ s) ≡ c ∷ s
unfolding trim_left
trim_left-cons c s h = keep_left (is_space c) (trim_left s) (c ∷ s) h

trim_end-Plain : (s : String) → Plain s → trim_end is_space s ≡ s
unfolding trim_end
trim_end-Plain [] h = refl
trim_end-Plain (c ∷ s) h = trim_end-cons c s h.0 ∙ λ i. c ∷ trim_end-Plain s h.2 i

trim_space-cons :
    (c : Char) (s : String) → is_space c ≡ false → trim_space (c ∷ s) ≡ c ∷ trim_end is_space s
unfolding trim_space
trim_space-cons c s h = ap trim_left (trim_end-cons c s h) ∙ trim_left-cons c _ h

trim_space-IsWord : (s : String) → IsWord s → trim_space s ≡ s
trim_space-IsWord [] h = absurd h
trim_space-IsWord (c ∷ s) h = trim_space-cons c s h.0 ∙ λ i. c ∷ trim_end-Plain s h.2 i

cons_not_empty : (c : Char) (s : String) → ((c ∷ s) == "") ≡ false
cons_not_empty c s = ==-false_of_ne (c ∷ s) "" (cons-ne-nil c s)

trim_parts-IsWord : (ks : List String) → All IsWord ks → trim_parts ks ≡ ks
unfolding trim_parts
trim_parts-IsWord [] h = refl
trim_parts-IsWord ([] ∷ ks) (h, hs) = absurd h
trim_parts-IsWord ((c ∷ s) ∷ ks) (h, hs) =
    rw (trim_space-IsWord (c ∷ s) h, cons_not_empty c s, trim_parts-IsWord ks hs)

join-trims :
    (k : String) (ks : List String) → IsWord k → (trim_space (join "," (k ∷ ks)) == "") ≡ false
unfolding join
join-trims [] ks h = absurd h
join-trims (c ∷ s) [] h = rw (trim_space-cons c s h.0) (cons_not_empty c _)
join-trims (c ∷ s) (l ∷ ks) h = rw (cons-append, trim_space-cons c _ h.0) (cons_not_empty c _)

-- The agent reads a list of words as it was joined.
pub csv-join :
    (k : String) (ks : List String) → All IsWord (k ∷ ks) → csv (join "," (k ∷ ks)) ≡ k ∷ ks
unfolding csv
csv-join k ks (h, hs) = rw (join-trims k ks h) (
    ap trim_parts (split-join b',' "," k ks refl (Free-IsWord k h) (Free-All ks hs))
    ∙ trim_parts-IsWord (k ∷ ks) (h, hs))
