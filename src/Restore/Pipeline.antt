-- ===== src/Restore/Pipeline.antt =====
-- internal/controller/pbsrestore_controller.go: `ensureVolumeJobs` and `Reconcile`.
use pbs_k8s_operator.Base.{String, Bool, true, false, List, [], ◌∷◌, if◌then◌else◌}
use pbs_k8s_operator.Base.Text.{◌+++◌, is_empty, sort_strings}
use pbs_k8s_operator.Base.Text.Decimal.{decimal}
use pbs_k8s_operator.Kube.{Job, ConfigMap, value_at}
use pbs_k8s_operator.Types.{PbsRestore, PbsRepo, RestorePhase}
use pbs_k8s_operator.RestoreJobs.{
  RestoreJobSpec, build_api_fetch_job, build_apply_job, build_restore_volume_job,
}
use pbs_k8s_operator.RestorePlan.Parse.{
  ParsedDoc, ParseError, cannot_read, cannot_decode, missing_kind_or_name, Result, ok, err,
  parse_api_manifests,
}
use pbs_k8s_operator.RestorePlan.Buckets.{bucket_docs, pvcs_from_docs}
use pbs_k8s_operator.RestorePlan.Nodes.{node_for_pvc}
use pbs_k8s_operator.Controller.{job_name, first_node, agent_image}
use pbs_k8s_operator.Repo.Creds.{Resolved, usable, problem}
use pbs_k8s_operator.RepoSecret.Copy.{ensure_repo_secret}
use pbs_k8s_operator.Backup.Groups.{Groups, add_to_group, group_of, nodes_of}
use pbs_k8s_operator.Restore.Status.{validate_spec}
use pbs_k8s_operator.Reconcile.{M, pure, ask, on_got, ◌>>=◌, ◌>>◌, CtrlResult, no_requeue}
use pbs_k8s_operator.Restore.Steps.{
  Call, secret, Ensured, job_done, job_pending, job_problem, ensure_job, hold_restore, fail_restore,
  complete_restore, requeue_or_hold,
}
use pbs_k8s_operator.Restore.Access.{
  Cluster, restore_sa, ensure_target_namespace, ensure_job_rbac, adopt_config_map,
}

abbrev pub is_over : RestorePhase → Bool
is_over RestorePhase.completed = true
is_over RestorePhase.failed = true
is_over _ = false

-- The texts of the errors of `ParseAPIManifests`.
unfoldable pub parse_error_text : ParseError → String
parse_error_text (cannot_read i e) = "manifest doc " +++ decimal i +++ ": " +++ e
parse_error_text (cannot_decode i snippet e) =
    "manifest doc " +++ decimal i +++ " (" +++ snippet +++ "): " +++ e
parse_error_text (missing_kind_or_name i snippet) =
    "manifest doc " +++ decimal i +++ " (" +++ snippet +++ "): missing kind or metadata.name"

abbrev pub api_name : PbsRestore → String
api_name rs = rs.meta.name +++ "-api"

-- The groups of the claims, or the claim that has no node.
unfoldable pub volume_groups : List ParsedDoc → String → List String → Groups → Resolved Groups
volume_groups docs fallback [] groups = usable groups
volume_groups docs fallback (pvc ∷ pvcs) groups =
    let pinned = node_for_pvc docs pvc in
    let node = if is_empty pinned then fallback else pinned in
    let rest = volume_groups docs fallback pvcs (add_to_group node pvc groups) in
    if is_empty node
    then problem ("PVC " +++ pvc +++ " has no pinned node and the cluster has no nodes")
    else rest

module _ {W : Type 0} (cluster : Cluster W) where
  abbrev Act : Type 0 → Type 0
  Act A = M W Call A

  abbrev pub pipeline_name : PbsRestore → String → String
  pipeline_name rs step = job_name cluster.name_hash rs.meta.name step

  -- `spec`.
  unfoldable pub restore_spec : PbsRestore → String → RestoreJobSpec
  restore_spec rs sec = record {
    name = "";
    restore = rs.meta.name;
    namespace = rs.spec.target_namespace;
    repo_secret = sec;
    ref = rs.spec.snapshot_ref;
    image = agent_image cluster.image;
    service_account = restore_sa;
  }

  -- The Jobs of the pipeline as they are built.
  abbrev pub fetch_job : PbsRestore → String → Job
  fetch_job rs sec = build_api_fetch_job (restore_spec rs sec) (api_name rs)

  abbrev pub apply_job : PbsRestore → String → String → Job
  apply_job rs sec phase =
      build_apply_job (restore_spec rs sec) phase (api_name rs) rs.spec.drop_kinds
        rs.spec.keep_kinds

  abbrev pub volume_job : PbsRestore → String → Groups → String → Job
  volume_job rs sec groups node =
      build_restore_volume_job (restore_spec rs sec) node (sort_strings (group_of node groups))

  -- What follows a step: nothing unless its Job is done.
  abbrev pub when_done : Act Ensured → Ensured → Act Ensured
  when_done rest job_done = rest
  when_done rest job_pending = pure job_pending
  when_done rest (job_problem reason message) = pure (job_problem reason message)

  -- The loop of `ensureVolumeJobs` over the nodes.
  unfoldable pub ensure_node_jobs : PbsRestore → String → Groups → List String → Act Ensured
  ensure_node_jobs rs sec groups [] = pure job_done
  ensure_node_jobs rs sec groups (node ∷ nodes) = do
    e ←
        ensure_job cluster.steps rs (pipeline_name rs ("vol-" +++ node))
          (volume_job rs sec groups node)
    when_done (ensure_node_jobs rs sec groups nodes) e

  abbrev pub ensure_grouped : PbsRestore → String → Resolved Groups → Act Ensured
  ensure_grouped rs sec (problem p) = pure (job_problem "PlacementFailed" p)
  ensure_grouped rs sec (usable groups) = ensure_node_jobs rs sec groups (nodes_of groups)

  -- `ensureVolumeJobs`.
  unfoldable pub ensure_volume_jobs :
      PbsRestore → String → List ParsedDoc → List String → Act Ensured
  ensure_volume_jobs rs sec docs pvcs = do
    fallback ← first_node cluster.list_nodes
    ensure_grouped rs sec (volume_groups docs fallback pvcs [])

  -- `if err != nil || !done { return r.requeueOrHold(…) }`.
  abbrev pub unless_done : PbsRestore → RestorePhase → Act CtrlResult → Ensured → Act CtrlResult
  unless_done rs phase rest job_done = rest
  unless_done rs phase rest job_pending = requeue_or_hold cluster.steps rs phase job_pending
  unless_done rs phase rest (job_problem reason message) =
      requeue_or_hold cluster.steps rs phase (job_problem reason message)

  -- Step 5.
  unfoldable pub run_workload : PbsRestore → String → Act CtrlResult
  run_workload rs sec = do
    e ← ensure_job cluster.steps rs (pipeline_name rs "api-workload") (apply_job rs sec "workload")
    unless_done rs RestorePhase.applying_workloads (complete_restore cluster.steps rs) e

  -- Step 4, for the claims of the manifest.
  abbrev pub run_claims : PbsRestore → String → List ParsedDoc → List String → Act CtrlResult
  run_claims rs sec docs [] = run_workload rs sec
  run_claims rs sec docs (pvc ∷ pvcs) = do
    e ← ensure_volume_jobs rs sec docs (pvc ∷ pvcs)
    unless_done rs RestorePhase.restoring_volumes (run_workload rs sec) e

  abbrev pub run_parsed : PbsRestore → String → Result (List ParsedDoc) → Act CtrlResult
  run_parsed rs sec (err e) =
      fail_restore cluster.steps rs "InvalidSpec" ("api ConfigMap: " +++ parse_error_text e)
  run_parsed rs sec (ok docs) =
      run_claims rs sec docs
        (pvcs_from_docs ((bucket_docs cluster.yaml docs rs.spec.drop_kinds rs.spec.keep_kinds).pre))

  -- From step 4 on.
  unfoldable pub run_volumes : PbsRestore → String → ConfigMap → Act CtrlResult
  run_volumes rs sec cm =
      run_parsed rs sec
        (parse_api_manifests cluster.yaml (value_at "api.yaml" cm.entries) rs.spec.target_namespace)

  -- From step 3 on.
  unfoldable pub run_pre : PbsRestore → String → ConfigMap → Act CtrlResult
  run_pre rs sec cm = do
    adopt_config_map cluster rs cm
    e ← ensure_job cluster.steps rs (pipeline_name rs "api-pre") (apply_job rs sec "pre")
    unless_done rs RestorePhase.staging_api (run_volumes rs sec cm) e

  -- Step 2.
  unfoldable pub run_staged : PbsRestore → String → Act CtrlResult
  run_staged rs sec = do
    r ← ask (cluster.get_config_map rs.spec.target_namespace (api_name rs))
    on_got r
        (hold_restore cluster.steps rs "ApiManifestMissing"
          ("fetch Job completed but ConfigMap " +++ api_name rs +++ " is absent") 60)
        (run_pre rs sec)

  -- Step 1.
  unfoldable pub run_fetch : PbsRestore → String → Act CtrlResult
  run_fetch rs sec = do
    e ← ensure_job cluster.steps rs (pipeline_name rs "api-fetch") (fetch_job rs sec)
    unless_done rs RestorePhase.staging_api (run_staged rs sec) e

  -- What follows a value; a problem is a hold.
  abbrev pub or_hold :
      {A : Type 0} → PbsRestore → String → Resolved A → (A → Act CtrlResult) → Act CtrlResult
  or_hold rs reason (problem p) k = hold_restore cluster.steps rs reason p 60
  or_hold rs reason (usable a) k = k a

  -- With a repository that is ready.
  unfoldable pub run_ready : PbsRestore → PbsRepo → Act CtrlResult
  run_ready rs repo = do
    ns ← ensure_target_namespace cluster rs
    or_hold rs "TargetNamespaceTerminating" ns λ u. do
      r ← ensure_repo_secret cluster.secrets secret repo rs.spec.target_namespace []
      or_hold rs "SecretCopyFailed" r λ sec. do ensure_job_rbac cluster rs; run_fetch rs sec

  -- The gate on the repository.
  unfoldable pub gate : PbsRestore → Act CtrlResult
  gate rs = do
    r ← ask (cluster.get_repo rs.spec.repo_ref)
    on_got r
        (hold_restore cluster.steps rs "RepoNotReady"
          ("PBSRepo " +++ rs.spec.repo_ref +++ " not found") 60)
        λ repo.
          if cluster.steps.conditions.is_status_condition_true repo.status.conditions "Ready"
          then run_ready rs repo
          else hold_restore cluster.steps rs "RepoNotReady"
              ("PBSRepo " +++ repo.meta.name +++ " is not Ready") 60

  -- With a restore that is not over.
  unfoldable pub run_restore : PbsRestore → Act CtrlResult
  run_restore rs =
      if is_empty (validate_spec rs)
      then gate rs
      else fail_restore cluster.steps rs "InvalidSpec" (validate_spec rs)

  -- `Reconcile`.
  unfoldable pub reconcile : Act CtrlResult
  reconcile = do
    r ← ask cluster.get_restore
    on_got r (pure no_requeue)
        λ rs. if is_over rs.status.phase then pure no_requeue else run_restore rs
