-- ===== src/Backup/Quiet.antt =====
-- The steps of a backup's reconcile that neither run a hook, nor create a Job, nor record a phase.
use pbs_k8s_operator.Base.{String, List, [], ◌∷◌, ◌≡◌, Option, none, some}
use pbs_k8s_operator.Kube.{Pod, ConfigMap, PersistentVolumeClaim}
use pbs_k8s_operator.Types.{PbsBackup}
use pbs_k8s_operator.Repo.Creds.{Resolved, usable, problem}
use pbs_k8s_operator.Controller.{first_node}
use pbs_k8s_operator.Reconcile.{M, Answer, answer, refused}
use pbs_k8s_operator.Reconcile.Effects.{
  Keeps, Keeps-pure, Keeps-raise, Keeps-ask, Keeps-on_got, Keeps-bind, Keeps-send, keeps_rules,
}
use pbs_k8s_operator.Backup.Results.{Call, create_config_map, update_config_map}
use pbs_k8s_operator.Backup.Cluster.{
  Cluster, then_usable, named_pvcs, listed_pvcs, by_selector, by_spec, select_pvcs, ensure_staging,
  staged, staged_by, stage, place_pvc,
}
use pbs_k8s_operator.Backup.Groups.{Groups, add_to_group}
use pbs_k8s_operator.Backup.Reconciler.{in_groups, place_all, place}

pub first_node-Keeps :
    {W C V : Type 0} {see : C → List V} (list_nodes : W → Answer (List String) × W)
    → Keeps see (first_node {C = C} list_nodes)
unfolding first_node
first_node-Keeps list_nodes = search keeps_rules

pub then_usable-Keeps :
    {W C V A B : Type 0} {see : C → List V} (r : Resolved A) (k : A → M W C (Resolved B))
    → ((a : A) → Keeps see (k a))
    → Keeps see (then_usable r k)
then_usable-Keeps (problem p) k h = Keeps-pure (problem p)
then_usable-Keeps (usable a) k h = h a

module _ {W V : Type 0} (cluster : Cluster W) (see : Call → List V) where
  named_pvcs-Keeps : (ns : String) (names : List String) → Keeps see (named_pvcs cluster ns names)
  unfolding named_pvcs
  named_pvcs-Keeps ns [] = Keeps-pure (usable [])
  named_pvcs-Keeps ns (name ∷ names) = Keeps-bind _ _ (Keeps-ask _) λ r.
      Keeps-on_got r _ _ (Keeps-pure _) λ pvc.
        Keeps-bind _ _ (named_pvcs-Keeps ns names)
          λ rest. then_usable-Keeps rest _ λ pvcs. Keeps-pure _

  listed_pvcs-Keeps :
      (ns : String) (selector : Option String) → Keeps see (listed_pvcs cluster ns selector)
  unfolding listed_pvcs
  listed_pvcs-Keeps ns selector = search keeps_rules

  by_selector-Keeps : (ns : String) (a : Answer String) → Keeps see (by_selector cluster ns a)
  by_selector-Keeps ns (refused e) = search keeps_rules
  by_selector-Keeps ns (answer selector) = listed_pvcs-Keeps ns (some selector)

  by_spec-Keeps :
      (b : PbsBackup) (names : List String) (selector : Option String)
      → Keeps see (by_spec cluster b names selector)
  by_spec-Keeps b (name ∷ names) selector = named_pvcs-Keeps b.meta.namespace (name ∷ names)
  by_spec-Keeps b [] none = listed_pvcs-Keeps b.meta.namespace none
  by_spec-Keeps b [] (some selector) =
      by_selector-Keeps b.meta.namespace (cluster.as_selector selector)

  pub select_pvcs-Keeps : (b : PbsBackup) → Keeps see (select_pvcs cluster b)
  unfolding select_pvcs
  select_pvcs-Keeps b = by_spec-Keeps b b.spec.pvcs b.spec.selector

  place_pvc-Keeps :
      (pods : List Pod) (pvc : PersistentVolumeClaim) → Keeps see (place_pvc cluster pods pvc)
  unfolding place_pvc
  place_pvc-Keeps pods pvc = search keeps_rules

  in_groups-Keeps :
      (rest : Groups → M W Call (Resolved Groups)) (groups : Groups) (name : String)
      (r : Resolved String)
      → ((gs : Groups) → Keeps see (rest gs))
      → Keeps see (in_groups cluster rest groups name r)
  in_groups-Keeps rest groups name (problem p) h = Keeps-pure (problem p)
  in_groups-Keeps rest groups name (usable node) h = h (add_to_group node name groups)

  place_all-Keeps :
      (pods : List Pod) (pvcs : List PersistentVolumeClaim) (groups : Groups)
      → Keeps see (place_all cluster pods pvcs groups)
  unfolding place_all
  place_all-Keeps pods [] groups = Keeps-pure (usable groups)
  place_all-Keeps pods (pvc ∷ pvcs) groups =
      let rest = place_all-Keeps pods pvcs in
      search (keeps_rules, place_pvc-Keeps, in_groups-Keeps, rest)

  pub place-Keeps :
      (pods : List Pod) (pvcs : List PersistentVolumeClaim) → Keeps see (place cluster pods pvcs)
  unfolding place
  place-Keeps pods pvcs = search (keeps_rules, first_node-Keeps, place_all-Keeps)

  module _ (created : (cm : ConfigMap) → see (create_config_map cm) ≡ [])
      (updated : (cm : ConfigMap) → see (update_config_map cm) ≡ []) where
    ensure_staging-Keeps :
        (b : PbsBackup) (yaml : String) → Keeps see (ensure_staging cluster b yaml)
    unfolding ensure_staging
    ensure_staging-Keeps b yaml =
        let create = λ (cm : ConfigMap).
          Keeps-send {see = see} (create_config_map cm) (cluster.create_config_map cm)
            (created cm) in
        let update = λ (cm : ConfigMap).
          Keeps-send {see = see} (update_config_map cm) (cluster.update_config_map cm)
            (updated cm) in
        search (keeps_rules, create, update) depth 9

    staged-Keeps : (b : PbsBackup) (a : Answer String) → Keeps see (staged cluster b a)
    staged-Keeps b (refused e) = Keeps-raise _
    staged-Keeps b (answer yaml) = search (keeps_rules, ensure_staging-Keeps)

    staged_by-Keeps :
        (b : PbsBackup) (s : Option (String → W → Answer String × W))
        → Keeps see (staged_by cluster b s)
    staged_by-Keeps b none = Keeps-pure ""
    staged_by-Keeps b (some serialize) = search (keeps_rules, staged-Keeps)

    pub stage-Keeps : (b : PbsBackup) → Keeps see (stage cluster b)
    unfolding stage
    stage-Keeps b = staged_by-Keeps b cluster.serialize
