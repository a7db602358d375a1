-- ===== src/Restore/Quiet.antt =====
-- The steps of a restore's reconcile that neither create a Job nor record a phase.
use pbs_k8s_operator.Base.{String, [], ◌≡◌, refl}
use pbs_k8s_operator.Kube.{ConfigMap}
use pbs_k8s_operator.Types.{PbsRestore}
use pbs_k8s_operator.Reconcile.{Got, Made}
use pbs_k8s_operator.Reconcile.Effects.{
  Keeps, Keeps-ask, Keeps-bind, Keeps-send, Keeps-pure, Keeps-on_got, Keeps-on_made, keeps_rules,
}
use pbs_k8s_operator.Restore.Steps.{Call, create_namespace, patch_config_map}
use pbs_k8s_operator.Restore.Access.{
  Cluster, or_create, ensure_target_namespace, ensure_job_rbac, adopt_config_map,
}
use pbs_k8s_operator.Restore.Evidence.{deeds}

module _ {W : Type 0} (cluster : Cluster W) (rs : PbsRestore) where
  pub adopt_config_map-Keeps : (cm : ConfigMap) → Keeps deeds (adopt_config_map cluster rs cm)
  unfolding adopt_config_map
  adopt_config_map-Keeps cm =
      let patch = λ (cm : ConfigMap).
        Keeps-send {see = deeds} (patch_config_map cm) (cluster.patch_config_map cm) refl in
      search (keeps_rules, patch) depth 9

  pub ensure_target_namespace-Keeps : Keeps deeds (ensure_target_namespace cluster rs)
  unfolding ensure_target_namespace
  ensure_target_namespace-Keeps =
      let create = λ (ns : String).
        Keeps-send {see = deeds} (create_namespace ns) (cluster.create_namespace ns) refl in
      search (keeps_rules, create) depth 9

  or_create-Keeps :
      (r : Got (Unit {0})) (call : Call) (create : W → Made × W)
      → deeds call ≡ []
      → Keeps deeds (or_create cluster r call create)
  or_create-Keeps r call create e =
      Keeps-on_got r _ _
        (Keeps-bind _ _ (Keeps-send call create e)
          λ made. Keeps-on_made made _ _ (Keeps-pure tt) (Keeps-pure tt))
        λ u. Keeps-pure tt

  pub ensure_job_rbac-Keeps : Keeps deeds (ensure_job_rbac cluster rs)
  unfolding ensure_job_rbac
  ensure_job_rbac-Keeps = Keeps-bind _ _ (Keeps-ask _) λ sa.
      Keeps-bind _ _ (or_create-Keeps sa _ _ refl) λ u. Keeps-bind _ _ (Keeps-ask _) λ rb.
        Keeps-bind _ _ (or_create-Keeps rb _ _ refl)
          λ v. Keeps-bind _ _ (Keeps-ask _) λ crb. or_create-Keeps crb _ _ refl
