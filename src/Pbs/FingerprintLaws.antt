-- ===== src/Pbs/FingerprintLaws.antt =====
-- Which certificates a configured fingerprint admits.
use Prim.Native.String.{String, [], ◌∷◌}
use mathlib.Core.List.{List, [], ◌∷◌}
use pbs_k8s_operator.Base.{
  ℕ, Option, none, some, ◌≡◌, refl, ap, sym, ◌∙◌, if◌then◌else◌, ◌==◌, eq_iff, Bool-cases, inl, inr,
}
use pbs_k8s_operator.Pbs.Fingerprint.{hex, colon_hex, fingerprint_key, verify_fingerprint}
use pbs_k8s_operator.Pbs.Keys.{IsBytes, bytes_of, bytes_of-hex_key, drop-hex_key, key-colon_hex}

abbrev answer_of : String → String → String → Option String
answer_of key want e = if key == want then none else some e

same_of_none : (key want e : String) → answer_of key want e ≡ none → key ≡ want
same_of_none key want e h = elim (Bool-cases (key == want)) [
  | inl same ↦ (eq_iff key want).0 same
  | inr other ↦ cc (rw other at h)
]

none_of_same : (key want e : String) → key ≡ want → answer_of key want e ≡ none
none_of_same key want e h = rw ((eq_iff key want).1 h) refl

-- The leaf certificate of a chain that the server presents, with the hash that a fingerprint reads as.
pub record Pinned {C : Type 0} (sha256 : C → List ℕ) (certs : List C) (want : String) : Type 0 where
  pub leaf : C
  pub chain : List C
  pub presented : certs ≡ leaf ∷ chain
  pub hashed : bytes_of (fingerprint_key want) ≡ sha256 leaf

module _ {C : Type 0} (sha256 : C → List ℕ) (bytes : (c : C) → IsBytes (sha256 c)) where
  -- Where a hash consists of bytes, a chain that is accepted has a leaf, whose hash is the one that the
  -- configured fingerprint reads as: so no fingerprint admits two leaves of different hashes.
  pub verify_fingerprint-Pinned :
      (certs : List C) (want : String)
      → verify_fingerprint sha256 certs want ≡ none
      → Pinned sha256 certs want
  unfolding verify_fingerprint fingerprint_key
  verify_fingerprint-Pinned [] want h = absurd (cc h)
  verify_fingerprint-Pinned (leaf ∷ chain) want h = record {
    leaf = leaf;
    chain = chain;
    presented = refl;
    hashed =
        ap bytes_of (sym (same_of_none _ _ _ h) ∙ key-colon_hex (sha256 leaf) (bytes leaf))
        ∙ bytes_of-hex_key (sha256 leaf) (bytes leaf);
  }

  -- Where a hash consists of bytes, the leaf of a chain is accepted for its own hash, as the server
  -- prints it and as plain hexadecimal digits in small letters.
  pub verify_fingerprint-colon_hex :
      (leaf : C) (chain : List C)
      → (verify_fingerprint sha256 (leaf ∷ chain) (colon_hex (sha256 leaf)) ≡ none)
        × (verify_fingerprint sha256 (leaf ∷ chain) (hex (sha256 leaf)) ≡ none)
  unfolding verify_fingerprint fingerprint_key
  verify_fingerprint-colon_hex leaf chain = (
    none_of_same _ _ _ refl,
    none_of_same _ _ _
        (key-colon_hex (sha256 leaf) (bytes leaf) ∙ sym (drop-hex_key (sha256 leaf) (bytes leaf))),
  )
