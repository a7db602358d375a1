-- ===== src/Backup/Cluster.antt =====
-- internal/controller/pbsbackup_controller.go: what a reconcile of a backup asks of others, and
-- `selectPVCs`, `ensureStagingConfigMap` and `placePVC`.
use pbs_k8s_operator.Base.{String, Option, none, some, List, [], ◌∷◌, if◌then◌else◌, ◌==◌}
use pbs_k8s_operator.Base.Text.{◌+++◌, is_empty}
use pbs_k8s_operator.Kube.{
  Job, Pod, ConfigMap, PersistentVolume, PersistentVolumeClaim, value_at, new_meta,
}
use pbs_k8s_operator.Types.{PbsBackup, PbsRepo}
use pbs_k8s_operator.JobSpec.{managed_label}
use pbs_k8s_operator.Placement.{resolve_node, Placed, on_node, unplaceable}
use pbs_k8s_operator.Hooks.{Argv}
use pbs_k8s_operator.Controller.{NameHash}
use pbs_k8s_operator.Repo.Creds.{Resolved, usable, problem}
use pbs_k8s_operator.RepoSecret.Copy.{SecretApi}
use pbs_k8s_operator.Reconcile.{
  Got, Made, Answer, answer, refused, M, pure, raise, ask, send, need, on_got, on_made, ◌>>=◌, ◌>>◌,
}
use pbs_k8s_operator.Backup.Results.{Call, create_config_map, update_config_map, Env}

pub record Cluster (W : Type 0) : Type 0 where
  pub get_backup : W → Got PbsBackup × W
  pub get_repo : String → W → Got PbsRepo × W
  pub secrets : SecretApi W
  pub get_pvc : String → String → W → Got PersistentVolumeClaim × W  -- a namespace and a name
  pub list_pvcs : String → Option String → W → Answer (List PersistentVolumeClaim) × W
  pub as_selector : String → Answer String  -- `LabelSelectorAsSelector`
  pub get_pv : String → W → Got PersistentVolume × W
  pub list_namespace_pods : String → W → Answer (List Pod) × W
  pub list_nodes : W → Answer (List String) × W  -- the names
  pub serialize : Option (String → W → Answer String × W)  -- `r.Serializer`
  pub get_config_map : String → String → W → Got ConfigMap × W
  pub create_config_map : ConfigMap → W → Made × W
  pub update_config_map : ConfigMap → W → Answer (Unit {0}) × W
  pub unmarshal_argv : String → Argv
  pub hook_executor : Option (Pod → String → List String → W → Answer (Unit {0}) × W)
  pub get_job : String → String → W → Got Job × W
  pub create_job : Job → W → Made × W
  pub no_job : String → String  -- the text of the error for a Job that is not found
  pub name_hash : NameHash
  pub image : String  -- `r.AgentImage`
  pub ends : Env W

-- What follows a value, unless there is a problem.
abbrev pub then_usable :
    {W C A B : Type 0} → Resolved A → (A → M W C (Resolved B)) → M W C (Resolved B)
then_usable (problem p) k = pure (problem p)
then_usable (usable a) k = k a

module _ {W : Type 0} (cluster : Cluster W) where
  abbrev Act : Type 0 → Type 0
  Act A = M W Call A

  -- The loop over `spec.pvcs`.
  unfoldable pub named_pvcs : String → List String → Act (Resolved (List PersistentVolumeClaim))
  named_pvcs ns [] = pure (usable [])
  named_pvcs ns (name ∷ names) = do
    r ← ask (cluster.get_pvc ns name)
    on_got r (pure (problem ("PVC " +++ name +++ " not found in namespace " +++ ns)))
        λ pvc. do rest ← named_pvcs ns names; then_usable rest λ pvcs. pure (usable (pvc ∷ pvcs))

  unfoldable pub listed_pvcs : String → Option String → Act (Resolved (List PersistentVolumeClaim))
  listed_pvcs ns selector = do
    r ← ask (cluster.list_pvcs ns selector)
    pvcs ← need r
    pure (usable pvcs)

  abbrev pub by_selector : String → Answer String → Act (Resolved (List PersistentVolumeClaim))
  by_selector ns (refused e) = pure (problem ("invalid selector: " +++ e))
  by_selector ns (answer selector) = listed_pvcs ns (some selector)

  abbrev pub by_spec :
      PbsBackup → List String → Option String → Act (Resolved (List PersistentVolumeClaim))
  by_spec b (name ∷ names) selector = named_pvcs b.meta.namespace (name ∷ names)
  by_spec b [] none = listed_pvcs b.meta.namespace none
  by_spec b [] (some selector) = by_selector b.meta.namespace (cluster.as_selector selector)

  -- `selectPVCs`.
  unfoldable pub select_pvcs : PbsBackup → Act (Resolved (List PersistentVolumeClaim))
  select_pvcs b = by_spec b b.spec.pvcs b.spec.selector

  abbrev pub staging_config_map : PbsBackup → String → ConfigMap
  staging_config_map b yaml = record {
    meta =
        record (new_meta (b.meta.name +++ "-api") b.meta.namespace ((managed_label, "true") ∷ [])) {
          owners = b.meta.uid ∷ [];
        };
    entries = ("api.yaml", yaml) ∷ [];
  }

  -- `ensureStagingConfigMap`.
  unfoldable pub ensure_staging : PbsBackup → String → Act String
  ensure_staging b yaml =
      let name = b.meta.name +++ "-api" in
      do
        r ← ask (cluster.get_config_map b.meta.namespace name)
        on_got r
            (do
              made ←
                  send (create_config_map (staging_config_map b yaml))
                    (cluster.create_config_map (staging_config_map b yaml))
              on_made made (pure name) (pure name))
            λ existing. if value_at "api.yaml" existing.entries == yaml then pure name else (do
              a ← send (update_config_map (record existing { entries = ("api.yaml", yaml) ∷ [] })) (
                  cluster.update_config_map (record existing { entries = ("api.yaml", yaml) ∷ [] }))
              need a
              pure name)

  abbrev pub staged : PbsBackup → Answer String → Act String
  staged b (refused e) = raise ("serialize namespace " +++ b.meta.namespace +++ ": " +++ e)
  staged b (answer yaml) = if is_empty yaml then pure "" else ensure_staging b yaml

  abbrev pub staged_by : PbsBackup → Option (String → W → Answer String × W) → Act String
  staged_by b none = pure ""
  staged_by b (some serialize) = do r ← ask (serialize b.meta.namespace); staged b r

  -- The name of the staging ConfigMap, "" for none.
  unfoldable pub stage : PbsBackup → Act String
  stage b = staged_by b cluster.serialize

  abbrev pub placed_on : Placed → Resolved String
  placed_on (on_node node) = usable node
  placed_on (unplaceable p) = problem p

  -- `placePVC`.
  unfoldable pub place_pvc : List Pod → PersistentVolumeClaim → Act (Resolved String)
  place_pvc pods pvc =
      if is_empty pvc.volume_name
      then pure (problem ("PVC " +++ pvc.meta.name +++ " is not bound to a PersistentVolume yet"))
      else (do
        r ← ask (cluster.get_pv pvc.volume_name)
        on_got r
            (pure (
              problem
                ("PV " +++ pvc.volume_name +++ " for PVC " +++ pvc.meta.name +++ " not found")))
            λ pv. pure (placed_on (resolve_node pvc (some pv) pods)))
