-- ===== src/RepoSecret/Copy.antt =====
-- internal/controller/pbsbackup_controller.go and pbsrestore_controller.go: `ensureRepoSecret`, which
-- both controllers have. The copy of a backup is owned by it, that of a restore by nobody.
use pbs_k8s_operator.Base.{String, Bool, not, ◌&&◌, List, [], ◌∷◌, if◌then◌else◌}
use pbs_k8s_operator.Base.Text.{◌+++◌, is_empty}
use pbs_k8s_operator.Kube.{StringMap, value_at, put_at, Secret, new_meta}
use pbs_k8s_operator.Types.{PbsRepo}
use pbs_k8s_operator.JobSpec.{managed_label}
use pbs_k8s_operator.Reconcile.{
  Got, Made, Answer, M, pure, ask, send, need, on_got, on_made, ◌>>=◌, ◌>>◌,
}
use pbs_k8s_operator.RepoSecret.{repo_secret_keys, copy_keys, contract_equal}
use pbs_k8s_operator.Repo.Creds.{Resolved, usable, problem}

-- The changes that the copy asks for.
pub data SecretCall : Type 0 where
  create_secret update_secret : Secret → SecretCall

-- The API server as the copy uses it, and the environment's POD_NAMESPACE.
pub record SecretApi (W : Type 0) : Type 0 where
  pub get_secret : String → String → W → Got Secret × W  -- a namespace and a name
  pub create_secret : Secret → W → Made × W
  pub update_secret : Secret → W → Answer (Unit {0}) × W
  pub pod_namespace : String

abbrev pub copy_name : PbsRepo → String
copy_name repo = "pbsrepo-" +++ repo.meta.name

-- The copy that is made where there is none.
unfoldable pub fresh_copy : PbsRepo → String → List String → StringMap → Secret
fresh_copy repo ns owners entries = record {
  meta = record (new_meta (copy_name repo) ns ((managed_label, "true") ∷ [])) { owners = owners };
  bytes = entries;
}

-- A copy that is there, brought up to date.
unfoldable pub refreshed_copy : Secret → StringMap → Secret
refreshed_copy existing entries = record {
  meta = record (existing.meta) { labels = put_at managed_label "true" existing.meta.labels };
  bytes = entries;
}

-- Whether a copy that is there needs no change.
unfoldable pub is_fresh : Secret → StringMap → Bool
is_fresh existing entries =
    contract_equal existing.bytes entries
    && not (is_empty (value_at managed_label existing.meta.labels))

module _ {W C : Type 0} (api : SecretApi W) (call : SecretCall → C) where
  abbrev pub source_namespace : PbsRepo → String
  source_namespace repo =
      if is_empty repo.spec.secret_ref.namespace
      then if is_empty api.pod_namespace then "pbs-operator-system" else api.pod_namespace
      else repo.spec.secret_ref.namespace

  -- The copy with the entries of its source.
  unfoldable pub place_copy : PbsRepo → String → List String → StringMap → M W C (Resolved String)
  place_copy repo ns owners entries = do
    r ← ask (api.get_secret ns (copy_name repo))
    on_got r
        (do
          made ←
              send (call (create_secret (fresh_copy repo ns owners entries)))
                (api.create_secret (fresh_copy repo ns owners entries))
          on_made made (pure (usable (copy_name repo))) (pure (usable (copy_name repo))))
        λ existing. if is_fresh existing entries then pure (usable (copy_name repo)) else (do
          a ←
              send (call (update_secret (refreshed_copy existing entries)))
                (api.update_secret (refreshed_copy existing entries))
          need a
          pure (usable (copy_name repo)))

  -- `ensureRepoSecret`, for the namespace of the copy and its owners.
  unfoldable pub ensure_repo_secret : PbsRepo → String → List String → M W C (Resolved String)
  ensure_repo_secret repo ns owners = do
    r ← ask (api.get_secret (source_namespace repo) repo.spec.secret_ref.name)
    on_got r
        (pure (
          problem (
            "repo secret "
            +++ source_namespace repo
            +++ "/"
            +++ repo.spec.secret_ref.name
            +++ " not found")))
        λ src. place_copy repo ns owners (copy_keys repo_secret_keys src.bytes)
