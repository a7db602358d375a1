-- ===== src/Pbs/Fingerprint.antt =====
-- internal/pbs/client.go: `verifyFingerprint`, `colonHex` and `fingerprintKey`. The hash of a
-- certificate, a list of bytes, is a parameter. `strings.ToUpper` is that of the ASCII letters: it
-- makes no other letter a hexadecimal digit.
use Prim.Native.Char.{Char, code}
use Prim.Native.String.{String, [], ◌∷◌, char_at}
use mathlib.Core.List.{List, [], ◌∷◌}
use pbs_k8s_operator.Base.{
  ℕ, ◌-◌, ◌/◌, ◌%◌, ◌&&◌, ◌||◌, Option, none, some, if◌then◌else◌, ◌==◌, eqb, leb,
}
use pbs_k8s_operator.Base.Text.{◌+++◌, join}

-- `hex.EncodeToString`.
unfoldable pub hex_digit : ℕ → Char
hex_digit n = char_at "0123456789abcdef" n

unfoldable pub hex : List ℕ → String
hex [] = []
hex (b ∷ bs) = hex_digit (b / 16) ∷ hex_digit (b % 16) ∷ hex bs

unfoldable pub upper_char : Char → Char
upper_char c =
    if leb b'a' (code c) && leb (code c) b'z'
    then char_at "ABCDEFGHIJKLMNOPQRSTUVWXYZ" (code c - b'a')
    else c

-- `strings.ToUpper`.
unfoldable pub to_upper : String → String
to_upper [] = []
to_upper (c ∷ s) = upper_char c ∷ to_upper s

-- The parts of two characters.
unfoldable pub pairs : String → List String
pairs (c ∷ d ∷ s) = (c ∷ d ∷ []) ∷ pairs s
pairs _ = []

-- `colonHex`.
unfoldable pub colon_hex : List ℕ → String
unfolding pairs
colon_hex bs = join ":" (pairs (to_upper (hex bs)))

-- The replacer of `fingerprintKey`.
unfoldable pub drop_marks : String → String
drop_marks [] = []
drop_marks (c ∷ s) =
    let rest = drop_marks s in if eqb (code c) b':' || eqb (code c) b' ' then rest else c ∷ rest

-- `fingerprintKey`.
unfoldable pub fingerprint_key : String → String
unfolding drop_marks to_upper
fingerprint_key fp = drop_marks (to_upper fp)

-- `verifyFingerprint`: none, or the error.
unfoldable pub verify_fingerprint : {C : Type 0} → (C → List ℕ) → List C → String → Option String
unfolding fingerprint_key colon_hex
verify_fingerprint sha256 [] want = some "pbs: server presented no certificate"
verify_fingerprint sha256 (cert ∷ chain) want =
    let got = colon_hex (sha256 cert) in
    if fingerprint_key got == fingerprint_key want
    then none
    else some (
        "pbs: certificate fingerprint mismatch: server cert is " +++ got
        +++ ", configured fingerprint is " +++ want)
