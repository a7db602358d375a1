-- ===== src/Repo/CredsLaws.antt =====
-- What the credentials are that a repository and its secret give.
use mathlib.Core.Path.{subst}
use pbs_k8s_operator.Base.{
  String, true, false, Option, none, some, sym, ◌∙◌, List, [], ◌∷◌, ◌≡◌, ◌⊎◌, inl, inr, refl, ap,
  arith, Bool-cases,
}
use pbs_k8s_operator.Base.Integers.{ℤ, pos, is_zero}
use pbs_k8s_operator.Base.Text.{is_empty}
use pbs_k8s_operator.Kube.{Secret, value_at}
use pbs_k8s_operator.Types.{PbsRepo}
use pbs_k8s_operator.Repo.Creds.{
  RepoCreds, Resolved, usable, problem, pick, missing_of, fingerprint_of, missing_creds, port_of,
  creds_at, with_port, with_missing, creds_of,
}

-- The value of the resource, where it has one, and else the one of the secret.
abbrev pub IsPicked : String → String → String → Type 0
IsPicked cr secret v = ((is_empty cr ≡ false) × (v ≡ cr)) ⊎ ((is_empty cr ≡ true) × (v ≡ secret))

pick-IsPicked : (cr secret : String) → IsPicked cr secret (pick cr secret)
unfolding pick
pick-IsPicked cr secret = elim (Bool-cases (is_empty cr)) [
  | inl e ↦ inr (e, rw e refl)
  | inr e ↦ inl (e, rw e refl)
]

-- Credentials that a client can be made of.
pub record IsComplete (repo : PbsRepo) (secret : Secret) (c : RepoCreds) : Type 0 where
  pub token_id : (c.token_id ≡ value_at "tokenID" secret.bytes) × (is_empty c.token_id ≡ false)
  pub token_secret :
      (c.token_secret ≡ value_at "tokenSecret" secret.bytes) × (is_empty c.token_secret ≡ false)
  pub fingerprint :
      IsPicked repo.spec.fingerprint (value_at "fingerprint" secret.bytes) c.fingerprint
      × (is_empty c.fingerprint ≡ false)
  pub host : IsPicked repo.spec.host (value_at "host" secret.bytes) c.host
  pub datastore : IsPicked repo.spec.datastore (value_at "datastore" secret.bytes) c.datastore
  pub namespace : IsPicked repo.spec.namespace (value_at "namespace" secret.bytes) c.namespace

-- Nothing is missing.
abbrev pub HasKeys : PbsRepo → Secret → Type 0
HasKeys repo secret =
    (is_empty (value_at "tokenID" secret.bytes) ≡ false)
    × (is_empty (value_at "tokenSecret" secret.bytes) ≡ false)
    × (is_empty (fingerprint_of repo secret) ≡ false)

missing_creds-HasKeys :
    (repo : PbsRepo) (secret : Secret) → missing_creds repo secret ≡ [] → HasKeys repo secret
unfolding missing_creds missing_of
missing_creds-HasKeys repo secret e = ground arith

missing_creds_of-HasKeys :
    (repo : PbsRepo) (secret : Secret) → HasKeys repo secret → missing_creds repo secret ≡ []
unfolding missing_creds missing_of
missing_creds_of-HasKeys repo secret (i, t, f) = rw (i, t, f) refl

module _ (atoi : String → Option ℤ) (quote : String → String) where
  creds_at-IsComplete :
      (repo : PbsRepo) (secret : Secret) (port : ℤ)
      → HasKeys repo secret
      → IsComplete repo secret (creds_at atoi quote repo secret port)
  unfolding creds_at fingerprint_of
  creds_at-IsComplete repo secret port (i, t, f) = record {
    token_id = (refl, i);
    token_secret = (refl, t);
    fingerprint = (pick-IsPicked _ _, f);
    host = pick-IsPicked _ _;
    datastore = pick-IsPicked _ _;
    namespace = pick-IsPicked _ _;
  }

  with_port-IsComplete :
      (repo : PbsRepo) (secret : Secret) (r : Resolved ℤ) (c : RepoCreds)
      → HasKeys repo secret
      → with_port atoi quote repo secret r ≡ usable c
      → IsComplete repo secret c × (r ≡ usable c.port)
  unfolding creds_at
  with_port-IsComplete repo secret (problem p) c h e = absurd (cc e)
  with_port-IsComplete repo secret (usable port) c h e =
      let same : creds_at atoi quote repo secret port ≡ c = cc e in
      (
        subst (IsComplete repo secret) same (creds_at-IsComplete repo secret port h),
        ap usable (ap (λ (x : RepoCreds). x.port) same),
      )

  with_missing-IsComplete :
      (repo : PbsRepo) (secret : Secret) (ks : List String) (c : RepoCreds)
      → missing_creds repo secret ≡ ks
      → with_missing atoi quote repo secret ks ≡ usable c
      → IsComplete repo secret c × (port_of atoi quote repo secret ≡ usable c.port)
  with_missing-IsComplete repo secret [] c m e =
      with_port-IsComplete repo secret (port_of atoi quote repo secret) c
        (missing_creds-HasKeys repo secret m) e
  with_missing-IsComplete repo secret (k ∷ ks) c m e = absurd (cc e)

  -- The port of the resource where it sets one, else that of the secret where it has one, as a
  -- number, and else 8007.
  pub data IsPort (repo : PbsRepo) (secret : Secret) (port : ℤ) : Type 0 where
    of_spec : is_zero repo.spec.port ≡ false → port ≡ repo.spec.port → IsPort repo secret port
    of_secret :
        is_zero repo.spec.port ≡ true
        → is_empty (value_at "port" secret.bytes) ≡ false
        → atoi (value_at "port" secret.bytes) ≡ some port
        → IsPort repo secret port
    standard :
        is_zero repo.spec.port ≡ true
        → is_empty (value_at "port" secret.bytes) ≡ true
        → port ≡ pos 8007
        → IsPort repo secret port

  read-IsPort :
      (repo : PbsRepo) (secret : Secret) (port : ℤ) (message : String) (o : Option ℤ)
      → atoi (value_at "port" secret.bytes) ≡ o
      → is_zero repo.spec.port ≡ true
      → is_empty (value_at "port" secret.bytes) ≡ false
      → (elim o as (λ o. Resolved ℤ) [ none ↦ problem message | some p ↦ usable p ]) ≡ usable port
      → IsPort repo secret port
  read-IsPort repo secret port message none e z n h = absurd (cc h)
  read-IsPort repo secret port message (some p) e z n h =
      let same : p ≡ port = cc h in of_secret z n (e ∙ ap some same)

  port_of-IsPort :
      (repo : PbsRepo) (secret : Secret) (port : ℤ)
      → port_of atoi quote repo secret ≡ usable port
      → IsPort repo secret port
  unfolding port_of
  port_of-IsPort repo secret port h = elim (Bool-cases (is_zero repo.spec.port)) [
    | inr set ↦
        let same : usable repo.spec.port ≡ usable port = rw set at h in of_spec set (sym (cc same))
    | inl unset ↦ elim (Bool-cases (is_empty (value_at "port" secret.bytes))) [
      | inl left_out ↦
          let same : usable (pos 8007) ≡ usable port = rw (unset, left_out) at h in
          standard unset left_out (sym (cc same))
      | inr given ↦
          read-IsPort repo secret port _ (atoi (value_at "port" secret.bytes)) refl unset given
            (rw (unset, given) at h)
    ]
  ]

  -- Credentials that are usable have a token, a secret and a fingerprint, none of them empty. The
  -- fingerprint, the host, the datastore and the namespace are those of the resource where it sets
  -- them, and else those of the secret; the port is that of the resource where it is not 0, else the
  -- number that the secret's reads as, and 8007 where the secret has none.
  pub creds_of-IsComplete :
      (repo : PbsRepo) (secret : Secret) (c : RepoCreds)
      → creds_of atoi quote repo secret ≡ usable c
      → IsComplete repo secret c × IsPort repo secret c.port
  unfolding creds_of
  creds_of-IsComplete repo secret c e =
      let (complete, port) =
        with_missing-IsComplete repo secret (missing_creds repo secret) c refl e in
      (complete, port_of-IsPort repo secret c.port port)
