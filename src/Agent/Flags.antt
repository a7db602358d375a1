-- ===== src/Agent/Flags.antt =====
-- `flag.FlagSet.Parse` of the Go library, for flags that take a text.
use Prim.Native.Char.{code}
use Prim.Native.String.{String, [], ◌∷◌}
use pbs_k8s_operator.Base.{
  Bool, true, false, ◌||◌, Option, none, some, List, [], ◌∷◌, if◌then◌else◌, eqb,
}

-- An argument: not a flag; the terminator `--`; a flag that is written wrongly; or a flag by its
-- name, with its value if it is written behind an equals sign.
pub data Arg : Type 0 where
  positional terminator malformed : Arg
  flag : String → Option String → Arg

abbrev starts_name : String → Bool
starts_name [] = false
starts_name (c ∷ s) = if eqb (code c) b'-' || eqb (code c) b'=' then false else true

-- The name up to the first `=`, and the value behind it.
cut_equals : String → String × Option String
cut_equals [] = ([], none)
cut_equals (c ∷ s) =
    let (name, value) = cut_equals s in
    if eqb (code c) b'=' then ([], some s) else (c ∷ name, value)

-- The search for `=` begins at the second character.
named : String → Arg
named [] = malformed
named (c ∷ s) =
    let (name, value) = cut_equals s in
    if starts_name (c ∷ s) then flag (c ∷ name) value else malformed

unfoldable pub classify : String → Arg
unfolding named cut_equals
classify [] = positional
classify (c ∷ []) = positional
classify (c ∷ d ∷ s) =
    if eqb (code c) b'-'
    then if eqb (code d) b'-'
      then elim s [ [] ↦ terminator | e ∷ r ↦ named (e ∷ r) ]
      else named (d ∷ s)
    else positional

-- The state after the flags, with the arguments that are left.
pub data Flags (S : Type 0) : Type 0 where
  parsed : S → List String → Flags S
  flag_error : Flags S

module _ {S : Type 0} (set : String → Option (String → S → S)) where
  -- `set` has the flags that are defined, by name.
  unfoldable pub parse_flags : S → List String → Flags S
  parse_flags s [] = parsed s []
  parse_flags s (a ∷ []) = elim (classify a) [
    | positional ↦ parsed s (a ∷ [])
    | terminator ↦ parsed s []
    | malformed ↦ flag_error
    | flag name value ↦ elim (set name) [
      | none ↦ flag_error
      | some f ↦ elim value [ none ↦ flag_error | some v ↦ parsed (f v s) [] ]
    ]
  ]
  parse_flags s (a ∷ b ∷ rest) = elim (classify a) [
    | positional ↦ parsed s (a ∷ b ∷ rest)
    | terminator ↦ parsed s (b ∷ rest)
    | malformed ↦ flag_error
    | flag name value ↦ elim (set name) [
      | none ↦ flag_error
      | some f ↦ elim value [
        | none ↦ parse_flags (f b s) rest
        | some v ↦ parse_flags (f v s) (b ∷ rest)
      ]
    ]
  ]
