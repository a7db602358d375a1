-- ===== src/Backup/Reconciler.antt =====
-- internal/controller/pbsbackup_controller.go: `Reconcile`.
use pbs_k8s_operator.Base.{
  String, Bool, true, false, ◌&&◌, Option, none, some, List, [], ◌∷◌, if◌then◌else◌,
}
use pbs_k8s_operator.Base.Text.{◌+++◌, is_empty}
use pbs_k8s_operator.Kube.{Pod, PersistentVolumeClaim}
use pbs_k8s_operator.Types.{PbsBackup, PbsRepo, is_terminal}
use pbs_k8s_operator.Controller.{first_node}
use pbs_k8s_operator.Repo.Creds.{Resolved, usable, problem}
use pbs_k8s_operator.RepoSecret.Copy.{ensure_repo_secret}
use pbs_k8s_operator.Restore.Status.{job_condition}
use pbs_k8s_operator.Reconcile.{M, pure, ask, need, on_got, ◌>>=◌, CtrlResult, no_requeue}
use pbs_k8s_operator.Backup.Results.{Call, secret, PlacedJob}
use pbs_k8s_operator.Backup.Outcome.{hold, run_backup, fail_backup, complete_backup}
use pbs_k8s_operator.Backup.Cluster.{Cluster, select_pvcs, stage, place_pvc}
use pbs_k8s_operator.Backup.Groups.{Groups, add_to_group, nodes_of}
use pbs_k8s_operator.Backup.Launch.{HookOutcome, hooks_done, hook_problem, run_pre_hooks, launch}

abbrev pub no_elements {ℓ} : {A : Type ℓ} → List A → Bool
no_elements [] = true
no_elements (x ∷ xs) = false

-- The first Job that failed.
unfoldable pub first_failed : List PlacedJob → Option PlacedJob
first_failed [] = none
first_failed (pj ∷ placed) =
    let rest = first_failed placed in if job_condition pj.job "Failed" then some pj else rest

-- `allComplete`, where no Job failed.
unfoldable pub all_complete : List PlacedJob → Bool
all_complete [] = true
all_complete (pj ∷ placed) = job_condition pj.job "Complete" && all_complete placed

module _ {W : Type 0} (cluster : Cluster W) where
  abbrev Act : Type 0 → Type 0
  Act A = M W Call A

  -- What follows a value; a problem is a hold.
  abbrev pub or_hold :
      {A : Type 0} → PbsBackup → String → Resolved A → (A → Act CtrlResult) → Act CtrlResult
  or_hold b reason (problem p) k = hold cluster.ends b reason p 60
  or_hold b reason (usable a) k = k a

  -- The states of the Jobs decide on the phase.
  abbrev pub settle_failed : PbsBackup → List PlacedJob → Option PlacedJob → Act CtrlResult
  settle_failed b placed (some pj) =
      fail_backup cluster.ends b "Failed"
        ("job " +++ pj.job.meta.name +++ " (node " +++ pj.node +++ ") failed") placed
  settle_failed b placed none =
      if all_complete placed
      then complete_backup cluster.ends b placed
      else run_backup cluster.ends b placed

  unfoldable pub settle : PbsBackup → List PlacedJob → Act CtrlResult
  settle b placed = settle_failed b placed (first_failed placed)

  -- Steps 5 to 7.
  unfoldable pub run_jobs : PbsBackup → String → String → Groups → Act CtrlResult
  run_jobs b sec staging groups = do
    r ← launch cluster b sec staging groups (nodes_of groups)
    or_hold b "JobDeleted" r λ placed. settle b placed

  abbrev pub after_hooks : PbsBackup → HookOutcome → Act CtrlResult → Act CtrlResult
  after_hooks b (hook_problem reason p) k = fail_backup cluster.ends b reason p []
  after_hooks b hooks_done k = k

  -- From step 4.5 on: the hooks are run where the status has no Jobs.
  unfoldable pub run_hooked :
      PbsBackup → String → String → List PersistentVolumeClaim → List Pod → Groups → Act CtrlResult
  run_hooked b sec staging pvcs pods groups =
      if no_elements b.status.jobs
      then (do r ← run_pre_hooks cluster pvcs pods; after_hooks b r (run_jobs b sec staging groups))
      else run_jobs b sec staging groups

  abbrev pub in_groups :
      (Groups → Act (Resolved Groups)) → Groups → String → Resolved String → Act (Resolved Groups)
  in_groups rest groups name (problem p) = pure (problem p)
  in_groups rest groups name (usable node) = rest (add_to_group node name groups)

  -- The loop that places the claims.
  unfoldable pub place_all : List Pod → List PersistentVolumeClaim → Groups → Act (Resolved Groups)
  place_all pods [] groups = pure (usable groups)
  place_all pods (pvc ∷ pvcs) groups = do
    r ← place_pvc cluster pods pvc
    in_groups (place_all pods pvcs) groups pvc.meta.name r

  abbrev pub on_first_node : String → Resolved Groups
  on_first_node node =
      if is_empty node
      then problem "no nodes found to run the API-only backup job"
      else usable ((node, []) ∷ [])

  -- Step 4.
  unfoldable pub place : List Pod → List PersistentVolumeClaim → Act (Resolved Groups)
  place pods pvcs =
      if no_elements pvcs
      then (do node ← first_node cluster.list_nodes; pure (on_first_node node))
      else place_all pods pvcs []

  -- From the gate on an empty selection on.
  unfoldable pub run_placed :
      PbsBackup → String → List PersistentVolumeClaim → String → Act CtrlResult
  run_placed b sec pvcs staging =
      if no_elements pvcs && is_empty staging
      then hold cluster.ends b "NoPVCsSelected"
          "no PVCs selected and the namespace has no API objects to serialize (the workload may appear later)"
          300
      else (do
        r ← ask (cluster.list_namespace_pods b.meta.namespace)
        pods ← need r
        groups ← place pods pvcs
        or_hold b "PlacementFailed" groups λ gs. run_hooked b sec staging pvcs pods gs)

  -- From step 3 on.
  unfoldable pub run_selected : PbsBackup → String → Act CtrlResult
  run_selected b sec = do
    r ← select_pvcs cluster b
    or_hold b "PlacementFailed" r
        λ pvcs. do staging ← stage cluster b; run_placed b sec pvcs staging

  -- With a repository that is ready.
  unfoldable pub run_ready : PbsBackup → PbsRepo → Act CtrlResult
  run_ready b repo = do
    r ← ensure_repo_secret cluster.secrets secret repo b.meta.namespace (b.meta.uid ∷ [])
    or_hold b "SecretCopyFailed" r λ sec. run_selected b sec

  -- The gate on the repository.
  unfoldable pub gate : PbsBackup → Act CtrlResult
  gate b = do
    r ← ask (cluster.get_repo b.spec.repo_ref)
    on_got r
        (hold cluster.ends b "RepoNotReady" ("PBSRepo " +++ b.spec.repo_ref +++ " not found") 60)
        λ repo.
          if cluster.ends.conditions.is_status_condition_true repo.status.conditions "Ready"
          then run_ready b repo
          else hold cluster.ends b "RepoNotReady"
              ("PBSRepo " +++ repo.meta.name +++ " is not Ready") 60

  -- `Reconcile`.
  unfoldable pub reconcile : Act CtrlResult
  reconcile = do
    r ← ask cluster.get_backup
    on_got r (pure no_requeue) λ b. if is_terminal b.status.phase then pure no_requeue else gate b
