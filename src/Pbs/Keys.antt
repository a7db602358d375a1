-- ===== src/Pbs/Keys.antt =====
-- What a fingerprint is compared by: its hexadecimal digits, without marks and in capitals.
use Prim.Native.Char.{Char, code}
use Prim.Native.String.{String, [], ◌∷◌}
use mathlib.Core.List.{List, [], ◌∷◌}
use text.Mathlib.TextLemmas.{nil-append, cons-append}
use pbs_k8s_operator.Base.{
  ℕ, zero, suc, ◌+◌, ◌*◌, ◌-◌, ◌/◌, ◌%◌, ◌<◌, Bool, true, false, ◌&&◌, ◌||◌, not, ◌≡◌, refl, ap,
  sym, ◌∙◌, All, arith, if◌then◌else◌, eqb, ltb,
}
use pbs_k8s_operator.Base.Text.{join}
use pbs_k8s_operator.Pbs.Fingerprint.{hex_digit, hex, upper_char, to_upper, colon_hex, drop_marks}

-- A digit as a number.
abbrev digit_value : Char → ℕ
digit_value c = if ltb (code c) b'A' then code c - b'0' else code c - b'A' + 10

-- The bytes that a text of capital hexadecimal digits stands for.
unfoldable pub bytes_of : String → List ℕ
bytes_of (c ∷ d ∷ s) = (digit_value c * 16 + digit_value d) ∷ bytes_of s
bytes_of _ = []

all_below : ℕ → (ℕ → Bool) → Bool
all_below zero p = true
all_below (suc n) p = p n && all_below n p

at_below : (n : ℕ) (p : ℕ → Bool) (k : ℕ) → all_below n p ≡ true → k < n → p k ≡ true
unfolding all_below
at_below zero p k h l = absurd (omega (arith, l))
at_below (suc n) p k h l = ground (arith, at_below n p k)

abbrev is_mark : Char → Bool
is_mark c = eqb (code c) b':' || eqb (code c) b' '

-- The capital digit of a number below 16.
abbrev capital : ℕ → Char
capital n = upper_char (hex_digit n)

-- Its value; it is no mark, and no small letter.
abbrev checks : ℕ → Bool
checks n =
    eqb (digit_value (capital n)) n && (not (is_mark (capital n)) && ltb (code (capital n)) b'a')

digit_table : all_below 16 checks ≡ true
unfolding all_below hex_digit upper_char
digit_table = refl

digit_checks : (n : ℕ) → n < 16 → checks n ≡ true
digit_checks n h = at_below 16 checks n digit_table h

capital_value : (n : ℕ) → n < 16 → digit_value (capital n) ≡ n
capital_value n h = ground (arith, digit_checks n h)

capital_mark : (n : ℕ) → n < 16 → is_mark (capital n) ≡ false
capital_mark n h = ground (arith, digit_checks n h)

not_small : (c : Char) → ltb (code c) b'a' ≡ true → upper_char c ≡ c
unfolding upper_char
not_small c e = ground arith

capital_upper : (n : ℕ) → n < 16 → upper_char (capital n) ≡ capital n
capital_upper n h = not_small (capital n) (ground (arith, digit_checks n h))

drop_marks-cons :
    (c : Char) (s : String) → is_mark c ≡ false → drop_marks (c ∷ s) ≡ c ∷ drop_marks s
unfolding drop_marks
drop_marks-cons c s e = pass (is_mark c) (drop_marks s) (c ∷ drop_marks s) e
  where
    pass : (b : Bool) (s t : String) → b ≡ false → (if b then s else t) ≡ t
    pass b s t e = rw e

-- A text of capital digits, byte by byte.
abbrev hex_key : List ℕ → String
hex_key bs = to_upper (hex bs)

abbrev pub IsBytes : List ℕ → Type 0
IsBytes = All (λ b. b < 256)

-- A byte in front of what is left of a fingerprint.
key-byte :
    (b : ℕ) (s : String)
    → b < 256
    → drop_marks (to_upper (capital (b / 16) ∷ capital (b % 16) ∷ s))
      ≡ capital (b / 16) ∷ capital (b % 16) ∷ drop_marks (to_upper s)
unfolding to_upper
key-byte b s h =
    let hi : b / 16 < 16 = omega arith in
    let lo : b % 16 < 16 = omega arith in
    rw (capital_upper (b / 16) hi, capital_upper (b % 16) lo)
      (drop_marks-cons (capital (b / 16)) _ (capital_mark (b / 16) hi) ∙ λ i.
        capital (b / 16)
        ∷ drop_marks-cons (capital (b % 16)) (to_upper s) (capital_mark (b % 16) lo) i)

upper_hex :
    (b : ℕ) (bs : List ℕ) → hex_key (b ∷ bs) ≡ capital (b / 16) ∷ capital (b % 16) ∷ hex_key bs
unfolding hex to_upper
upper_hex b bs = refl

key_nil : drop_marks (to_upper (hex_key [])) ≡ hex_key []
unfolding hex to_upper drop_marks
key_nil = refl

-- A capital fingerprint without marks is its own key.
key-hex_key : (bs : List ℕ) → IsBytes bs → drop_marks (to_upper (hex_key bs)) ≡ hex_key bs
key-hex_key [] h = key_nil
key-hex_key (b ∷ bs) (h, hs) =
    ap (λ s. drop_marks (to_upper s)) (upper_hex b bs)
    ∙ key-byte b (hex_key bs) h
    ∙ (λ i. capital (b / 16) ∷ capital (b % 16) ∷ key-hex_key bs hs i)
    ∙ sym (upper_hex b bs)

drop_nil : drop_marks [] ≡ []
unfolding drop_marks
drop_nil = refl

pub drop-hex_key : (bs : List ℕ) → IsBytes bs → drop_marks (hex_key bs) ≡ hex_key bs
unfolding hex to_upper
drop-hex_key [] h = drop_nil
drop-hex_key (b ∷ bs) (h, hs) =
    let hi : b / 16 < 16 = omega arith in
    let lo : b % 16 < 16 = omega arith in
    drop_marks-cons (capital (b / 16)) _ (capital_mark (b / 16) hi) ∙ λ i.
    capital (b / 16)
    ∷ (drop_marks-cons (capital (b % 16)) _ (capital_mark (b % 16) lo) ∙ λ j.
          capital (b % 16) ∷ drop-hex_key bs hs j)
        i

abbrev colon : Char
colon = ":"

joined :
    (c d : Char) (q : String) (ps : List String)
    → join ":" ((c ∷ d ∷ []) ∷ q ∷ ps) ≡ c ∷ d ∷ colon ∷ join ":" (q ∷ ps)
unfolding join
joined c d q ps = cons-append c (d ∷ []) _ ∙ λ i.
    c
    ∷ (cons-append d [] _ ∙ λ j.
          d
          ∷ (nil-append _ ∙ cons-append colon [] _ ∙ λ k. colon ∷ nil-append (join ":" (q ∷ ps)) k)
              j)
        i

colon_hex-cons :
    (b c : ℕ) (bs : List ℕ)
    → colon_hex (b ∷ c ∷ bs) ≡ capital (b / 16) ∷ capital (b % 16) ∷ colon ∷ colon_hex (c ∷ bs)
unfolding colon_hex hex to_upper
colon_hex-cons b c bs = joined _ _ _ _

key-colon : (s : String) → drop_marks (to_upper (colon ∷ s)) ≡ drop_marks (to_upper s)
unfolding drop_marks to_upper upper_char
key-colon s = refl

colon_hex_one : (b : ℕ) → colon_hex (b ∷ []) ≡ hex_key (b ∷ [])
unfolding colon_hex hex to_upper join
colon_hex_one b = refl

colon_hex_nil : colon_hex [] ≡ hex_key []
unfolding colon_hex hex to_upper join
colon_hex_nil = refl

-- The key of a fingerprint as the server prints it.
pub key-colon_hex : (bs : List ℕ) → IsBytes bs → drop_marks (to_upper (colon_hex bs)) ≡ hex_key bs
key-colon_hex [] h = ap (λ s. drop_marks (to_upper s)) colon_hex_nil ∙ key-hex_key [] h
key-colon_hex (b ∷ []) h =
    ap (λ s. drop_marks (to_upper s)) (colon_hex_one b) ∙ key-hex_key (b ∷ []) h
key-colon_hex (b ∷ c ∷ bs) (h, hs) =
    ap (λ s. drop_marks (to_upper s)) (colon_hex-cons b c bs)
    ∙ key-byte b (colon ∷ colon_hex (c ∷ bs)) h
    ∙ (λ i.
        capital (b / 16)
        ∷ capital (b % 16)
        ∷ (key-colon (colon_hex (c ∷ bs)) ∙ key-colon_hex (c ∷ bs) hs) i)
    ∙ sym (upper_hex b (c ∷ bs))

whole : (b : ℕ) → b / 16 * 16 + b % 16 ≡ b
whole b = omega arith

pub bytes_of-hex_key : (bs : List ℕ) → IsBytes bs → bytes_of (hex_key bs) ≡ bs
unfolding bytes_of hex to_upper
bytes_of-hex_key [] h = refl
bytes_of-hex_key (b ∷ bs) (h, hs) =
    let hi : b / 16 < 16 = omega arith in
    let lo : b % 16 < 16 = omega arith in
    rw (capital_value (b / 16) hi, capital_value (b % 16) lo, bytes_of-hex_key bs hs)
      (λ i. whole b i ∷ bs)

-- Whether the two keys agree, with the error where they do not.
