-- ===== src/Base/Text.antt =====
-- The functions of Go's `strings`, `bytes`, `strconv` and `fmt` that the program calls on whole
-- texts. A Go string is UTF-8 text here; `len` and `slice` of the library count bytes.
pub mod Decimal
pub mod Order
pub mod Splits
pub mod Sorts
use Prim.Native.Char.{Char, code}
use Prim.Native.Nat.{ℕ}
use Prim.Native.String.{String, [], ◌∷◌, len, slice, compare}
use Prim.Native.String
use mathlib.Core.Bool.{Bool, true, false, ◌&&◌, ◌||◌}
use mathlib.Core.List.{List, [], ◌∷◌}
use text.Mathlib.Text.{starts_with, is_lt, is_le}
use pbs_k8s_operator.Base.Tests.{eqb, leb, if◌then◌else◌}

infixr 66 ◌+++◌
-- Concatenation of texts, Go's `+`.
abbrev pub ◌+++◌ : String → String → String
s +++ t = String.◌++◌ s t

abbrev pub is_empty : String → Bool
is_empty [] = true
is_empty (c ∷ s) = false

-- `unicode.IsSpace`.
abbrev pub is_space : Char → Bool
is_space c =
    let n = code c in
    leb 9 n && leb n 13
    || eqb n 32
    || eqb n 0x85
    || eqb n 0xa0
    || eqb n 0x1680
    || leb 0x2000 n && leb n 0x200a
    || eqb n 0x2028
    || eqb n 0x2029
    || eqb n 0x202f
    || eqb n 0x205f
    || eqb n 0x3000

unfoldable pub trim_left : String → String
trim_left [] = []
trim_left (c ∷ s) = let rest = trim_left s in if is_space c then rest else c ∷ s

-- Drops the longest run at the end whose characters all pass the test.
unfoldable pub trim_end : (Char → Bool) → String → String
trim_end p [] = []
trim_end p (c ∷ s) = let rest = trim_end p s in if is_empty rest && p c then [] else c ∷ rest

-- `strings.TrimSpace`, `bytes.TrimSpace`.
unfoldable pub trim_space : String → String
unfolding trim_left trim_end
trim_space s = trim_left (trim_end is_space s)

abbrev push : Char → List String → List String
push c [] = (c ∷ []) ∷ []
push c (x ∷ xs) = (c ∷ x) ∷ xs

-- `strings.Split` at a separator of one ASCII character, given by its code.
unfoldable pub split : ℕ → String → List String
split n [] = [] ∷ []
split n (c ∷ s) = let rest = split n s in if eqb (code c) n then [] ∷ rest else push c rest

-- `strings.Join`.
unfoldable pub join : String → List String → String
join sep [] = []
join sep (x ∷ []) = x
join sep (x ∷ xs) = x +++ sep +++ join sep xs

-- The part before the first line feed: `if i := strings.IndexByte(s, '\n'); i >= 0 { s = s[:i] }`.
unfoldable pub before_newline : String → String
before_newline [] = []
before_newline (c ∷ s) = let rest = before_newline s in if eqb (code c) 10 then [] else c ∷ rest

-- `strings.Contains`.
unfoldable pub contains_text : String → String → Bool
contains_text [] p = starts_with [] p
contains_text (c ∷ s) p = starts_with (c ∷ s) p || contains_text s p

-- `strings.TrimPrefix`.
unfoldable pub trim_prefix : String → String → String
trim_prefix s p = if starts_with s p then slice s (len p) (len s) else s

-- Go's `s < t` on strings: by bytes, which is by code points for UTF-8.
abbrev pub str_lt : String → String → Bool
str_lt s t = is_lt (compare s t)

abbrev pub str_le : String → String → Bool
str_le s t = is_le (compare s t)

module _ {ℓ} {A : Type ℓ} (key : A → String) where
  insert : A → List A → List A
  insert a [] = a ∷ []
  insert a (x ∷ xs) = if str_le (key a) (key x) then a ∷ x ∷ xs else x ∷ insert a xs

  -- Insertion sort by a text key, for `sort.Strings` and `sort.Slice`.
  unfoldable pub sort_by : List A → List A
  unfolding insert
  sort_by [] = []
  sort_by (x ∷ xs) = insert x (sort_by xs)

abbrev pub self : String → String
self s = s

-- `sort.Strings`.
unfoldable pub sort_strings : List String → List String
unfolding sort_by
sort_strings = sort_by self
