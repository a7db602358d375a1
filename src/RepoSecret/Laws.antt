-- ===== src/RepoSecret/Laws.antt =====
-- What the copy of a repository's credentials holds.
use pbs_k8s_operator.Base.{
  String, Bool, true, ◌||◌, Option, none, some, List, [], ◌∷◌, ◌≡◌, refl, sym, ap, ◌∙◌, ◌==◌,
  eq_iff, if◌then◌else◌, arith, contains, All,
}
use pbs_k8s_operator.Kube.{StringMap, value_at, find_at}
use pbs_k8s_operator.RepoSecret.{repo_secret_keys, copy_one, copy_keys, equal_on, contract_equal}

find_at-copy_one :
    (j : String) (o : Option String) (rest : StringMap) (k : String) (src : StringMap) (c : Bool)
    → find_at j src ≡ o
    → find_at k rest ≡ (if c then find_at k src else none)
    → find_at k (copy_one j o rest) ≡ (if j == k || c then find_at k src else none)
unfolding find_at
find_at-copy_one j none rest k src c e h = ground (arith, eq_iff j k)
find_at-copy_one j (some v) rest k src c e h = ground (arith, eq_iff j k)

-- The copy has the keys of the contract that the source has, with the source's values, and no other.
pub find_at-copy_keys :
    (ks : List String) (k : String) (src : StringMap)
    → find_at k (copy_keys ks src) ≡ (if contains ks k then find_at k src else none)
unfolding copy_keys contains find_at
find_at-copy_keys [] k src = refl
find_at-copy_keys (j ∷ ks) k src =
    find_at-copy_one j (find_at j src) (copy_keys ks src) k src (contains ks k) refl
      (find_at-copy_keys ks k src)

abbrev or_empty : Option String → String
or_empty none = ""
or_empty (some v) = v

value_at-find_at : (k : String) (m : StringMap) → value_at k m ≡ or_empty (find_at k m)
unfolding find_at value_at
value_at-find_at k [] = refl
value_at-find_at k ((j, v) ∷ m) = ground (arith, value_at-find_at k m)

value_at-copy_keys :
    (ks : List String) (k : String) (src : StringMap)
    → contains ks k ≡ true
    → value_at k (copy_keys ks src) ≡ value_at k src
value_at-copy_keys ks k src c =
    let found : find_at k (copy_keys ks src) ≡ find_at k src =
      rw (find_at-copy_keys ks k src, c) refl in
    value_at-find_at k (copy_keys ks src) ∙ ap or_empty found ∙ sym (value_at-find_at k src)

-- The test reads no key outside of its list.
equal_on-copy_keys :
    (ks all_keys : List String) (a src : StringMap)
    → All (λ (k : String). contains all_keys k ≡ true) ks
    → equal_on ks a (copy_keys all_keys src) ≡ equal_on ks a src
unfolding equal_on
equal_on-copy_keys [] all_keys a src h = refl
equal_on-copy_keys (k ∷ ks) all_keys a src (c, h) =
    rw (value_at-copy_keys all_keys k src c, equal_on-copy_keys ks all_keys a src h) refl

keys_listed : All (λ (k : String). contains repo_secret_keys k ≡ true) repo_secret_keys
unfolding contains
keys_listed = (refl, (refl, (refl, (refl, (refl, (refl, (refl, (refl, tt))))))))

-- Whether the secret in a namespace is up to date against the copy of the source is the same as
-- against the source itself: what else the source holds, or gains later, causes no write.
pub contract_equal-copy_keys :
    (existing src : StringMap)
    → contract_equal existing (copy_keys repo_secret_keys src) ≡ contract_equal existing src
unfolding contract_equal
contract_equal-copy_keys existing src =
    equal_on-copy_keys repo_secret_keys repo_secret_keys existing src keys_listed
