-- ===== src/Repo/Creds.antt =====
-- internal/controller/pbsrepo_controller.go: `repoCreds`, `producerCreds` and `bootstrapToken`, from
-- the secret on.
use pbs_k8s_operator.Base.{String, Option, none, some, List, [], ◌∷◌, if◌then◌else◌}
use pbs_k8s_operator.Base.Integers.{ℤ, pos, is_zero}
use pbs_k8s_operator.Base.Text.{◌+++◌, is_empty, join}
use pbs_k8s_operator.Kube.{StringMap, value_at, Secret}
use pbs_k8s_operator.Types.{PbsRepo}

pub record RepoCreds : Type 0 where
  pub token_id : String
  pub token_secret : String
  pub fingerprint : String
  pub host : String
  pub port : ℤ
  pub datastore : String
  pub namespace : String

-- A value, or the message of a problem that a user can mend.
pub data Resolved (A : Type 0) : Type 0 where
  usable : A → Resolved A
  problem : String → Resolved A

-- `pick`.
unfoldable pub pick : String → String → String
pick cr_value secret_value = if is_empty cr_value then secret_value else cr_value

-- The loop over the required keys, before what follows it.
unfoldable pub missing_of : StringMap → List String → List String → List String
missing_of entries [] more = more
missing_of entries (k ∷ ks) more =
    let rest = missing_of entries ks more in
    if is_empty (value_at k entries) then k ∷ rest else rest

abbrev pub token_keys : List String
token_keys = "tokenID" ∷ "tokenSecret" ∷ []

-- The fingerprint: the spec's first, then the secret's.
unfoldable pub fingerprint_of : PbsRepo → Secret → String
fingerprint_of repo secret = pick repo.spec.fingerprint (value_at "fingerprint" secret.bytes)

unfoldable pub missing_creds : PbsRepo → Secret → List String
missing_creds repo secret =
    missing_of secret.bytes token_keys (
      if is_empty (fingerprint_of repo secret)
      then "fingerprint (or spec.fingerprint)" ∷ []
      else [])

abbrev pub secret_name : Secret → String
secret_name secret = secret.meta.namespace +++ "/" +++ secret.meta.name

module _ (atoi : String → Option ℤ) (quote : String → String) where
  -- The port: the spec's, then the secret's, then the default.
  unfoldable pub port_of : PbsRepo → Secret → Resolved ℤ
  port_of repo secret =
      let v = value_at "port" secret.bytes in
      if is_zero repo.spec.port
      then if is_empty v then usable (pos 8007) else elim (atoi v) [
        | none ↦ problem ("secret " +++ secret_name secret +++ ": invalid port " +++ quote v)
        | some p ↦ usable p
      ]
      else usable repo.spec.port

  unfoldable pub creds_at : PbsRepo → Secret → ℤ → RepoCreds
  creds_at repo secret port =
      let get : String → String = λ k. value_at k secret.bytes in
      record {
        token_id = get "tokenID";
        token_secret = get "tokenSecret";
        fingerprint = fingerprint_of repo secret;
        host = pick repo.spec.host (get "host");
        port = port;
        datastore = pick repo.spec.datastore (get "datastore");
        namespace = pick repo.spec.namespace (get "namespace");
      }

  abbrev pub with_port : PbsRepo → Secret → Resolved ℤ → Resolved RepoCreds
  with_port repo secret (problem p) = problem p
  with_port repo secret (usable port) = usable (creds_at repo secret port)

  -- After the list of missing keys.
  abbrev pub with_missing : PbsRepo → Secret → List String → Resolved RepoCreds
  with_missing repo secret [] = with_port repo secret (port_of repo secret)
  with_missing repo secret (k ∷ ks) =
      problem ("secret " +++ secret_name secret +++ " missing keys: " +++ join ", " (k ∷ ks))

  -- `producerCreds`, for a secret that was found.
  unfoldable pub creds_of : PbsRepo → Secret → Resolved RepoCreds
  creds_of repo secret = with_missing repo secret (missing_creds repo secret)

-- `bootstrapToken`, for a secret that was found: the first missing key is the problem.
unfoldable pub token_of : Secret → Resolved (String × String)
token_of secret =
    let id = value_at "tokenID" secret.bytes in
    let token = value_at "tokenSecret" secret.bytes in
    if is_empty id
    then problem "missing key tokenID"
    else if is_empty token
    then problem "missing key tokenSecret"
    else usable (id, token)
