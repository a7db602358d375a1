-- ===== src/Restore/Steps.antt =====
-- internal/controller/pbsrestore_controller.go: `ensureJob`, `liveJobs`, `recordRestore` and the ways
-- in which a reconcile of a restore ends.
use pbs_k8s_operator.Base.{
  ℕ, String, Bool, true, false, Option, none, some, List, [], ◌∷◌, ◌==◌, if◌then◌else◌,
}
use pbs_k8s_operator.Base.Text.{◌+++◌}
use pbs_k8s_operator.Kube.{ConditionStatus, cond_true, cond_false, Job, ConfigMap, ObjectMeta}
use pbs_k8s_operator.Types.{PbsRestore, PbsRestoreStatus, RestoreJobStatus, RestorePhase}
use pbs_k8s_operator.Reconcile.{
  Got, Made, Answer, answer, refused, M, pure, ask, send, need, on_got, on_made, ◌>>=◌, ◌>>◌,
  CtrlResult, no_requeue, requeue_after, seconds, ConditionApi,
}
use pbs_k8s_operator.RepoSecret.Copy.{SecretCall}
use pbs_k8s_operator.Restore.Status.{
  job_condition, known_job, recorded_job_state, hold_phase, merged_jobs,
}

-- A binding of the ServiceAccount of the Jobs to a ClusterRole.
pub record Binding : Type 0 where
  pub meta : ObjectMeta
  pub subject_name : String
  pub subject_namespace : String
  pub role : String

-- The changes that a reconcile asks for.
pub data Call : Type 0 where
  create_job : Job → Call
  patch_status : PbsRestoreStatus → Call
  event : Bool → String → String → Call
  create_namespace : String → Call
  secret : SecretCall → Call
  create_service_account : ObjectMeta → Call
  create_role_binding create_cluster_role_binding : Binding → Call
  patch_config_map : ConfigMap → Call

pub record Env (W : Type 0) : Type 0 where
  pub get_job : String → String → W → Got Job × W  -- a namespace and a name
  pub create_job : Job → W → Made × W
  pub list_jobs : String → String → W → Answer (List Job) × W
  pub patch_status : PbsRestoreStatus → W → Answer (Unit {0}) × W
  pub event : Bool → String → String → W → Unit {0} × W
  pub now : W → ℕ × W
  pub status_eq : PbsRestoreStatus → PbsRestoreStatus → Bool  -- `reflect.DeepEqual`
  pub conditions : ConditionApi

-- What `ensureJob` reports: a Job that is complete, one that is not, or a `restoreHold`.
pub data Ensured : Type 0 where
  job_done : Ensured
  job_pending : Ensured
  job_problem : String → String → Ensured

module _ {W : Type 0} (env : Env W) where
  abbrev Act : Type 0 → Type 0
  Act A = M W Call A

  -- The Job that `ensureJob` creates: its name is the controller's, and the restore owns it where
  -- both are in one namespace.
  unfoldable pub pipeline_job : PbsRestore → String → Job → Job
  pipeline_job rs name built = record built {
    meta = record (built.meta) {
      name = name;
      owners =
          if built.meta.namespace == rs.meta.namespace then rs.meta.uid ∷ [] else built.meta.owners;
    };
  }

  -- `ensureJob` for a Job that is there.
  unfoldable pub found_job : String → Job → Ensured
  found_job name job =
      if job_condition job "Failed"
      then job_problem "Failed" ("job " +++ name +++ " failed")
      else if job_condition job "Complete"
      then job_done
      else job_pending

  -- `ensureJob` for a Job that is not.
  unfoldable pub absent_job : PbsRestore → String → Job → Act Ensured
  absent_job rs name built =
      if known_job rs name
      then if recorded_job_state rs name == "complete"
        then pure job_done
        else pure (
            job_problem "JobDeleted"
              ("job " +++ name +++ " was deleted before the restore finished; not recreating it"))
      else (do
        r ←
            send (create_job (pipeline_job rs name built))
              (env.create_job (pipeline_job rs name built))
        on_made r (pure job_pending) (pure job_pending))

  -- `ensureJob`.
  unfoldable pub ensure_job : PbsRestore → String → Job → Act Ensured
  ensure_job rs name built = do
    r ← ask (env.get_job rs.spec.target_namespace name)
    on_got r (absent_job rs name built) λ job. pure (found_job name job)

  abbrev listed : PbsRestore → Answer (List Job) → List RestoreJobStatus
  listed rs (answer jobs) = merged_jobs rs jobs
  listed rs (refused e) = rs.status.jobs

  -- `liveJobs`.
  unfoldable pub live_jobs : PbsRestore → Act (List RestoreJobStatus)
  live_jobs rs = do
    r ← ask (env.list_jobs rs.spec.target_namespace rs.meta.name)
    pure (listed rs r)

  -- `recordRestore`: whether the condition changed.
  unfoldable pub record_restore :
      PbsRestore
      → RestorePhase
      → ConditionStatus
      → String
      → String
      → (PbsRestoreStatus → Act PbsRestoreStatus)
      → Act Bool
  record_restore rs phase status reason message extra =
      let (conditions, transitioned) =
        env.conditions.set_status_condition rs.status.conditions (record {
          kind = "Ready";
          status = status;
          reason = reason;
          message = message;
          observed_generation = rs.meta.generation;
        }) in
      do
        after ← extra (record (rs.status) { phase = phase; conditions = conditions })
        (if env.status_eq rs.status after then pure transitioned else (do
          r ← send (patch_status after) (env.patch_status after)
          need r
          pure transitioned))

  abbrev pub told : Bool → Bool → String → String → Act (Unit {0})
  told transitioned warning reason message =
      if transitioned
      then send (event warning reason message) (env.event warning reason message)
      else pure tt

  -- `holdRestore`.
  unfoldable pub hold_restore : PbsRestore → String → String → ℕ → Act CtrlResult
  hold_restore rs reason message wait = do
    transitioned ← record_restore rs (hold_phase rs.status.phase) cond_false reason message pure
    told transitioned true reason message
    pure (requeue_after (seconds wait))

  abbrev pub or_now : Option ℕ → Act (Option ℕ)
  or_now none = do now ← ask env.now; pure (some now)
  or_now (some t) = pure (some t)

  -- The changes of a restore that ends: its Jobs, and its completion time where that is not set.
  unfoldable pub finished : PbsRestore → PbsRestoreStatus → Act PbsRestoreStatus
  finished rs s = do
    jobs ← live_jobs rs
    at ← or_now s.completed_at
    pure (record s { jobs = jobs; completed_at = at })

  -- `completeRestore` and `failRestore`.
  unfoldable pub complete_restore : PbsRestore → Act CtrlResult
  complete_restore rs =
      let message =
        "restore of " +++ rs.spec.snapshot_ref +++ " into " +++ rs.spec.target_namespace
        +++ " completed" in
      do
        transitioned ←
            record_restore rs RestorePhase.completed cond_true "Completed" message (finished rs)
        told transitioned false "Completed" message
        pure no_requeue

  unfoldable pub fail_restore : PbsRestore → String → String → Act CtrlResult
  fail_restore rs reason message = do
    transitioned ← record_restore rs RestorePhase.failed cond_false reason message (finished rs)
    told transitioned true reason message
    pure no_requeue

  -- The changes of a restore in progress.
  unfoldable pub started : PbsRestore → PbsRestoreStatus → Act PbsRestoreStatus
  started rs s = do
    at ← or_now s.started_at
    jobs ← live_jobs rs
    pure (record s { started_at = at; jobs = jobs })

  -- `string(phase)`.
  unfoldable pub phase_name : RestorePhase → String
  phase_name RestorePhase.new = "New"
  phase_name RestorePhase.staging_api = "StagingAPI"
  phase_name RestorePhase.restoring_volumes = "RestoringVolumes"
  phase_name RestorePhase.applying_workloads = "ApplyingWorkloads"
  phase_name RestorePhase.completed = "Completed"
  phase_name RestorePhase.failed = "Failed"

  -- `requeueOrHold`, for an outcome that is not another error.
  unfoldable pub requeue_or_hold : PbsRestore → RestorePhase → Ensured → Act CtrlResult
  requeue_or_hold rs phase (job_problem reason message) =
      if reason == "Failed"
      then fail_restore rs reason message
      else hold_restore rs reason message 60
  requeue_or_hold rs phase _ = do
    record_restore rs phase cond_false "Running" ("restore in phase " +++ phase_name phase)
        (started rs)
    pure (requeue_after (seconds 60))
