-- ===== src/Restore/Access.antt =====
-- internal/controller/pbsrestore_controller.go: what a reconcile of a restore asks of others, and the
-- target namespace, the rights of the Jobs and the ConfigMap of the manifest.
use pbs_k8s_operator.Base.{
  String, Bool, List, [], ◌∷◌, ◌++◌, if◌then◌else◌, ◌==◌, not, ◌||◌, contains,
}
use pbs_k8s_operator.Base.Text.{◌+++◌}
use pbs_k8s_operator.Kube.{ConfigMap, ObjectMeta, StringMap, new_meta}
use pbs_k8s_operator.Types.{PbsRestore, PbsRepo}
use pbs_k8s_operator.JobSpec.{managed_label}
use pbs_k8s_operator.Controller.{NameHash}
use pbs_k8s_operator.RepoSecret.Copy.{SecretApi}
use pbs_k8s_operator.RestorePlan.Parse.{Yaml}
use pbs_k8s_operator.Repo.Creds.{Resolved, usable, problem}
use pbs_k8s_operator.Reconcile.{Got, Made, Answer, M, pure, ask, send, on_got, on_made, ◌>>=◌, ◌>>◌}
use pbs_k8s_operator.Restore.Steps.{
  Binding, Call, create_namespace, create_service_account, create_role_binding,
  create_cluster_role_binding, patch_config_map, Env,
}

pub record Cluster (W : Type 0) : Type 0 where
  pub get_restore : W → Got PbsRestore × W
  pub get_repo : String → W → Got PbsRepo × W
  pub get_namespace : String → W → Got ObjectMeta × W
  pub create_namespace : String → W → Made × W
  pub secrets : SecretApi W
  pub get_service_account : String → String → W → Got (Unit {0}) × W  -- a namespace and a name
  pub create_service_account : ObjectMeta → W → Made × W
  pub get_role_binding : String → String → W → Got (Unit {0}) × W
  pub create_role_binding : Binding → W → Made × W
  pub get_cluster_role_binding : String → W → Got (Unit {0}) × W
  pub create_cluster_role_binding : Binding → W → Made × W
  pub get_config_map : String → String → W → Got ConfigMap × W
  pub can_control : ConfigMap → Bool  -- whether `SetControllerReference` succeeds
  pub patch_config_map : ConfigMap → W → Answer (Unit {0}) × W
  pub list_nodes : W → Answer (List String) × W  -- the names
  pub yaml : Yaml
  pub name_hash : NameHash
  pub image : String  -- `r.AgentImage`
  pub steps : Env W

abbrev pub restore_sa : String
restore_sa = "pbs-restore"

abbrev pub restore_role_name : String
restore_role_name = "pbs-operator-pbs-restore"

abbrev pub restore_cluster_role_name : String
restore_cluster_role_name = "pbs-operator-pbs-restore-cluster"

-- `rbacLabels`.
abbrev pub rbac_labels : String → StringMap
rbac_labels restore = (managed_label, "true") ∷ ("pbsrestore", restore) ∷ []

unfoldable pub role_binding : PbsRestore → Binding
role_binding rs = record {
  meta = new_meta restore_sa rs.spec.target_namespace (rbac_labels rs.meta.name);
  subject_name = restore_sa;
  subject_namespace = rs.spec.target_namespace;
  role = restore_role_name;
}

abbrev pub cluster_binding_name : PbsRestore → String
cluster_binding_name rs = "pbs-restore-" +++ rs.spec.target_namespace

unfoldable pub cluster_role_binding : PbsRestore → Binding
cluster_role_binding rs = record {
  meta = new_meta (cluster_binding_name rs) "" (rbac_labels rs.meta.name);
  subject_name = restore_sa;
  subject_namespace = rs.spec.target_namespace;
  role = restore_cluster_role_name;
}

unfoldable pub service_account : PbsRestore → ObjectMeta
service_account rs = new_meta restore_sa rs.spec.target_namespace (rbac_labels rs.meta.name)

module _ {W : Type 0} (cluster : Cluster W) where
  abbrev Act : Type 0 → Type 0
  Act A = M W Call A

  -- `ensureTargetNamespace`.
  unfoldable pub ensure_target_namespace : PbsRestore → Act (Resolved (Unit {0}))
  ensure_target_namespace rs =
      let name = rs.spec.target_namespace in
      do
        r ← ask (cluster.get_namespace name)
        on_got r
            (do
              made ← send (create_namespace name) (cluster.create_namespace name)
              on_made made (pure (usable tt)) (pure (usable tt)))
            λ ns. pure (
              if ns.terminating
              then problem ("target namespace " +++ ns.name +++ " is terminating")
              else usable tt)

  -- An object that is created where it is missing.
  abbrev pub or_create : Got (Unit {0}) → Call → (W → Made × W) → Act (Unit {0})
  or_create r call create =
      on_got r (do made ← send call create; on_made made (pure tt) (pure tt)) λ u. pure tt

  -- `ensureJobRBAC`.
  unfoldable pub ensure_job_rbac : PbsRestore → Act (Unit {0})
  ensure_job_rbac rs = do
    sa ← ask (cluster.get_service_account rs.spec.target_namespace restore_sa)
    or_create sa (create_service_account (service_account rs))
        (cluster.create_service_account (service_account rs))
    rb ← ask (cluster.get_role_binding rs.spec.target_namespace restore_sa)
    or_create rb (create_role_binding (role_binding rs))
        (cluster.create_role_binding (role_binding rs))
    crb ← ask (cluster.get_cluster_role_binding (cluster_binding_name rs))
    or_create crb (create_cluster_role_binding (cluster_role_binding rs))
        (cluster.create_cluster_role_binding (cluster_role_binding rs))

  abbrev pub adopted : PbsRestore → ConfigMap → ConfigMap
  adopted rs cm = record cm {
    meta = record (cm.meta) { owners = cm.meta.owners ++ rs.meta.uid ∷ [] };
  }

  -- `adoptConfigMap`: the answer to the patch is dropped.
  unfoldable pub adopt_config_map : PbsRestore → ConfigMap → Act (Unit {0})
  adopt_config_map rs cm =
      if not (cm.meta.namespace == rs.meta.namespace)
        || (contains cm.meta.owners rs.meta.uid || not (cluster.can_control cm))
      then pure tt
      else (do
        r ← send (patch_config_map (adopted rs cm)) (cluster.patch_config_map (adopted rs cm))
        pure tt)
