-- ===== src/RepoSecret/Writes.antt =====
-- Which secrets the copy of a repository's credentials writes.
use mathlib.Core.Path.{subst}
use pbs_k8s_operator.Base.{
  String, Bool, true, false, not, ◌&&◌, ◌==◌, eq_iff, none, List, [], ◌∷◌, ◌≡◌, refl, sym, ap, ◌∙◌,
  if◌then◌else◌, contains, arith,
}
use pbs_k8s_operator.Base.Text.{is_empty}
use pbs_k8s_operator.Kube.{StringMap, value_at, find_at, put_at, Secret}
use pbs_k8s_operator.Types.{PbsRepo}
use pbs_k8s_operator.JobSpec.{managed_label}
use pbs_k8s_operator.Reconcile.{M, got, not_found, send, ◌>>=◌}
use pbs_k8s_operator.Reconcile.Effects.{Adds, Keeps, Adds-send, Adds-bind, keeps_rules}
use pbs_k8s_operator.Reconcile.Brings.{
  Brings, Brings-Adds, Brings-Keeps, Brings-asked, Brings-if, Brings-on_got_of,
}
use pbs_k8s_operator.Reconcile.Returns.{From}
use pbs_k8s_operator.RepoSecret.{repo_secret_keys, copy_keys, equal_on, contract_equal}
use pbs_k8s_operator.RepoSecret.Laws.{find_at-copy_keys, contract_equal-copy_keys}
use pbs_k8s_operator.RepoSecret.Copy.{
  SecretCall, create_secret, update_secret, SecretApi, copy_name, fresh_copy, refreshed_copy,
  is_fresh, source_namespace, place_copy, ensure_repo_secret,
}

equal_on_self : (ks : List String) (m : StringMap) → equal_on ks m m ≡ true
unfolding equal_on
equal_on_self [] m = refl
equal_on_self (k ∷ ks) m = ground (arith, eq_iff (value_at k m) (value_at k m), equal_on_self ks m)

value_at-put_at : (k v : String) (m : StringMap) → value_at k (put_at k v m) ≡ v
unfolding value_at put_at
value_at-put_at k v [] = ground (arith, eq_iff k k)
value_at-put_at k v ((j, w) ∷ m) = ground (arith, eq_iff j k, value_at-put_at k v m)

labelled :
    (sec : Secret) → value_at managed_label sec.meta.labels ≡ "true" → is_fresh sec sec.bytes ≡ true
unfolding is_fresh contract_equal
labelled sec e = rw (equal_on_self repo_secret_keys sec.bytes, e) refl

fresh_copy-is_fresh :
    (repo : PbsRepo) (ns : String) (owners : List String) (entries : StringMap)
    → is_fresh (fresh_copy repo ns owners entries) entries ≡ true
unfolding fresh_copy value_at
fresh_copy-is_fresh repo ns owners entries = labelled (fresh_copy repo ns owners entries) refl

refreshed_copy-is_fresh :
    (old : Secret) (entries : StringMap) → is_fresh (refreshed_copy old entries) entries ≡ true
unfolding refreshed_copy
refreshed_copy-is_fresh old entries =
    labelled (refreshed_copy old entries) (value_at-put_at managed_label "true" old.meta.labels)

value_at-put_at_other :
    (j k v : String) (m : StringMap) → (k == j) ≡ false → value_at j (put_at k v m) ≡ value_at j m
unfolding value_at put_at
value_at-put_at_other j k v [] h = rw h refl
value_at-put_at_other j k v ((i, w) ∷ m) h =
    ground (arith, eq_iff i k, eq_iff i j, eq_iff k j, value_at-put_at_other j k v m h)

-- The secrets that a change writes.
abbrev pub written : SecretCall → List Secret
written (create_secret sec) = sec ∷ []
written (update_secret sec) = sec ∷ []

module _ {W C : Type 0} (api : SecretApi W) (call : SecretCall → C) (see : C → List Secret)
    (sees : (c : SecretCall) → see (call c) ≡ written c) (repo : PbsRepo) (ns : String)
    (owners : List String) where
  -- The copy of a source: the namespace and the keys with their values, and it is up to date.
  pub record IsCopy (src sec : Secret) : Type 0 where
    pub named : sec.meta.name ≡ copy_name repo
    pub placed : sec.meta.namespace ≡ ns
    pub entries :
        (k : String)
        → find_at k sec.bytes ≡ (if contains repo_secret_keys k then find_at k src.bytes else none)
    pub fresh : is_fresh sec src.bytes ≡ true

  -- What is written: nothing, a new secret where there was none, or the old one renewed.
  pub data Writes : List Secret → Type 0 where
    nothing : Writes []
    made :
        (src sec : Secret)
        → From (api.get_secret (source_namespace api call repo) repo.spec.secret_ref.name) (got src)
        → From (api.get_secret ns (copy_name repo)) not_found
        → IsCopy src sec
        → sec.meta.owners ≡ owners
        → Writes (sec ∷ [])
    renewed :
        (src old sec : Secret)
        → From (api.get_secret (source_namespace api call repo) repo.spec.secret_ref.name) (got src)
        → From (api.get_secret ns (copy_name repo)) (got old)
        → is_fresh old src.bytes ≡ false
        → IsCopy src sec
        → ((k : String)
            → (managed_label == k) ≡ false
            → value_at k sec.meta.labels ≡ value_at k old.meta.labels)
        → Writes (sec ∷ [])

  is_fresh-copy_keys :
      (sec src : Secret)
      → is_fresh sec (copy_keys repo_secret_keys src.bytes) ≡ is_fresh sec src.bytes
  unfolding is_fresh
  is_fresh-copy_keys sec src =
      ap (λ (b : Bool). b && not (is_empty (value_at managed_label sec.meta.labels)))
        (contract_equal-copy_keys sec.bytes src.bytes)

  -- A secret with the copied entries that is up to date against them.
  copied :
      (src sec : Secret)
      → sec.meta.name ≡ copy_name repo
      → sec.meta.namespace ≡ ns
      → sec.bytes ≡ copy_keys repo_secret_keys src.bytes
      → is_fresh sec (copy_keys repo_secret_keys src.bytes) ≡ true
      → IsCopy src sec
  copied src sec n p b f = record {
    named = n;
    placed = p;
    entries = λ k. ap (find_at k) b ∙ find_at-copy_keys repo_secret_keys k src.bytes;
    fresh = sym (is_fresh-copy_keys sec src) ∙ f;
  }

  -- A request that writes one secret, and what follows it quietly.
  writes :
      {A B : Type 0} (c : SecretCall) (sec : Secret) (f : W → A × W) (k : A → M W C B)
      → written c ≡ sec ∷ []
      → Writes (sec ∷ [])
      → ((a : A) → Keeps see (k a))
      → Brings see Writes (send (call c) f >>= k)
  writes c sec f k e w h = Brings-Adds (sec ∷ []) _ w (
      Adds-bind _ k (sec ∷ [])
        (subst (λ (xs : List Secret). Adds see xs (send (call c) f)) (sees c ∙ e)
          (Adds-send (call c) f))
        h)

  -- What a read of a namespace and a name answers has that name and is of that namespace.
  abbrev pub Addressed : Type 0
  Addressed =
      (space name : String) (w : W) (sec : Secret)
      → (api.get_secret space name w).0 ≡ got sec
      → (sec.meta.name ≡ name) × (sec.meta.namespace ≡ space)

  module _ (addressed : Addressed) where
    new_made :
        (src : Secret)
        → From (api.get_secret (source_namespace api call repo) repo.spec.secret_ref.name) (got src)
        → From (api.get_secret ns (copy_name repo)) not_found
        → Writes (fresh_copy repo ns owners (copy_keys repo_secret_keys src.bytes) ∷ [])
    unfolding fresh_copy
    new_made src there gone =
        let entries = copy_keys repo_secret_keys src.bytes in
        let sec = fresh_copy repo ns owners entries in
        made src sec there gone
          (copied src sec refl refl refl (fresh_copy-is_fresh repo ns owners entries)) refl

    old_renewed :
        (src old : Secret)
        → From (api.get_secret (source_namespace api call repo) repo.spec.secret_ref.name) (got src)
        → From (api.get_secret ns (copy_name repo)) (got old)
        → is_fresh old (copy_keys repo_secret_keys src.bytes) ≡ false
        → Writes (refreshed_copy old (copy_keys repo_secret_keys src.bytes) ∷ [])
    unfolding refreshed_copy
    old_renewed src old there at stale =
        let entries = copy_keys repo_secret_keys src.bytes in
        let sec = refreshed_copy old entries in
        let (n, p) = addressed ns (copy_name repo) at.0 old at.1 in
        renewed src old sec there at (sym (is_fresh-copy_keys old src) ∙ stale)
          (copied src sec n p refl (refreshed_copy-is_fresh old entries))
          λ k other. value_at-put_at_other k managed_label "true" old.meta.labels other

    place_copy-Writes :
        (src : Secret)
        → From (api.get_secret (source_namespace api call repo) repo.spec.secret_ref.name) (got src)
        → Brings see Writes
            (place_copy api call repo ns owners (copy_keys repo_secret_keys src.bytes))
    unfolding place_copy
    place_copy-Writes src there =
        let entries = copy_keys repo_secret_keys src.bytes in
        let new = fresh_copy repo ns owners entries in
        Brings-asked (api.get_secret ns (copy_name repo)) _ λ r from.
          Brings-on_got_of r r _ _ refl nothing
            (λ gone.
              writes (create_secret new) new _ _ refl (new_made src there (from.0, from.1 ∙ gone))
                (λ r. search keeps_rules))
            λ old is.
              Brings-if (is_fresh old entries) _ _
                (λ f. Brings-Keeps _ nothing (search keeps_rules))
                λ stale.
                  let sec = refreshed_copy old entries in
                  writes (update_secret sec) sec _ _ refl
                    (old_renewed src old there (from.0, from.1 ∙ is) stale)
                    (λ r. search keeps_rules)

    -- Where a read answers the secret of the name and the namespace that it asks for, ensuring the
    -- copy of a repository's credentials writes at most one secret, whatever else the API server
    -- answers: a new one of the owners where there was none, or the old one, its other labels kept,
    -- where it was not up to date; and it has the copy's name and namespace and exactly the keys of
    -- the contract that the source has, with its values, and is up to date against the source.
    pub ensure_repo_secret-Writes : Brings see Writes (ensure_repo_secret api call repo ns owners)
    unfolding ensure_repo_secret
    ensure_repo_secret-Writes =
        Brings-asked (api.get_secret (source_namespace api call repo) repo.spec.secret_ref.name) _
          λ r from.
            Brings-on_got_of r r _ _ refl nothing
              (λ gone. Brings-Keeps _ nothing (search keeps_rules))
              λ src is. place_copy-Writes src (from.0, from.1 ∙ is)
