-- ===== src/Backup/Outcome.antt =====
-- internal/controller/pbsbackup_controller.go: `recordOutcome`, and the
-- ways in which a reconcile of a backup ends: `hold`, `runBackup`, `completeBackup`, `failBackup`.
use pbs_k8s_operator.Base.{
  ℕ, ◌+◌, ◌%◌, String, Bool, true, false, Option, none, some, List, [], ◌∷◌, ◌++◌, length, eqb,
  if◌then◌else◌,
}
use pbs_k8s_operator.Base.Text.{◌+++◌}
use pbs_k8s_operator.Base.Text.Decimal.{decimal}
use pbs_k8s_operator.Kube.{ConditionStatus, cond_true, cond_false}
use pbs_k8s_operator.Types.{
  PbsBackup, PbsBackupStatus, BackupJobStatus, BackupPhase, scheduled, running, completed, failed,
}
use pbs_k8s_operator.Reconcile.{
  M, pure, ask, send, need, ◌>>=◌, ◌>>◌, CtrlResult, no_requeue, requeue_after, seconds,
}
use pbs_k8s_operator.Backup.Results.{
  Call, patch_status, event, success_gauge, duration_gauge, error_counter, Env, PlacedJob,
  JobResult, result, unreadable, int64_modulus, job_statuses, job_result,
}

-- What the loop of `completeBackup` collects, or the problem of the first bad result.
pub data Collected : Type 0 where
  collected : List BackupJobStatus → ℕ → String → Collected
  bad_result : String → Collected

-- The phase of a hold.
abbrev pub held_phase : BackupPhase → BackupPhase
held_phase running = running
held_phase _ = scheduled

module _ {W : Type 0} (env : Env W) where
  abbrev Act : Type 0 → Type 0
  Act A = M W Call A

  -- `recordOutcome`: whether the condition changed, with the status that the backup then has.
  unfoldable pub record_outcome :
      PbsBackup
      → BackupPhase
      → ConditionStatus
      → String
      → String
      → (PbsBackupStatus → Act PbsBackupStatus)
      → Act (Bool × PbsBackupStatus)
  record_outcome b phase status reason message extra =
      let (conditions, transitioned) =
        env.conditions.set_status_condition b.status.conditions (record {
          kind = "Ready";
          status = status;
          reason = reason;
          message = message;
          observed_generation = b.meta.generation;
        }) in
      do
        after ← extra (record (b.status) { phase = phase; conditions = conditions })
        (if env.status_eq b.status after then pure (transitioned, after) else (do
          r ← send (patch_status after) (env.patch_status after)
          need r
          pure (transitioned, after)))

  abbrev pub told : Bool → Bool → String → String → Act (Unit {0})
  told transitioned warning reason message =
      if transitioned
      then send (event warning reason message) (env.event warning reason message)
      else pure tt

  abbrev pub or_now : Option ℕ → Act (Option ℕ)
  or_now none = do now ← ask env.now; pure (some now)
  or_now (some t) = pure (some t)

  -- `hold`.
  unfoldable pub hold : PbsBackup → String → String → ℕ → Act CtrlResult
  hold b reason message wait = do
    r ← record_outcome b (held_phase b.status.phase) cond_false reason message pure
    told r.0 true reason message
    pure (requeue_after (seconds wait))

  unfoldable pub launched : List PlacedJob → PbsBackupStatus → Act PbsBackupStatus
  launched placed s = do
    at ← or_now s.started_at
    pure (record s { started_at = at; jobs = job_statuses placed })

  -- `runBackup`.
  unfoldable pub run_backup : PbsBackup → List PlacedJob → Act CtrlResult
  run_backup b placed = do
    r ← record_outcome b running cond_false "Running" "backup jobs running" (launched placed)
    told r.0 false "Running" "backup jobs are running"
    pure (requeue_after (seconds 60))

  abbrev pub send_metric : Call → Act (Unit {0})
  send_metric c = send c (env.metric c)

  abbrev pub gauges : Option ℕ → Option ℕ → Act (Unit {0})
  gauges none start = pure tt
  gauges (some at) none = send_metric (success_gauge at)
  gauges (some at) (some start) =
      send_metric (success_gauge at) >> send_metric (duration_gauge start at)

  -- `observeCompleted` and `observeFailed`.
  unfoldable pub observe_completed : PbsBackupStatus → Act (Unit {0})
  observe_completed s = if env.has_metrics then gauges s.completed_at s.started_at else pure tt

  unfoldable pub observe_failed : Act (Unit {0})
  observe_failed = if env.has_metrics then send_metric error_counter else pure tt

  unfoldable pub ended : List BackupJobStatus → PbsBackupStatus → Act PbsBackupStatus
  ended statuses s = do
    at ← or_now s.completed_at
    pure (record s { jobs = statuses; completed_at = at })

  -- `failBackup`.
  unfoldable pub fail_backup : PbsBackup → String → String → List PlacedJob → Act CtrlResult
  fail_backup b reason message placed = do
    r ← record_outcome b failed cond_false reason message (ended (job_statuses placed))
    told r.0 true reason message
    observe_failed
    pure no_requeue

  abbrev pub with_result :
      PlacedJob
      → (List BackupJobStatus → ℕ → String → Act Collected)
      → List BackupJobStatus
      → ℕ
      → JobResult
      → Act Collected
  with_result pj rest statuses total (unreadable p) = pure (bad_result p)
  with_result pj rest statuses total (result ref bytes) =
      rest
        (statuses ++ record { node = pj.node; job = pj.job.meta.name; state = "ok:" +++ ref } ∷ [])
        ((total + bytes) % int64_modulus) ref

  unfoldable pub collect :
      String → List PlacedJob → List BackupJobStatus → ℕ → String → Act Collected
  collect ns [] statuses total ref = pure (collected statuses total ref)
  collect ns (pj ∷ placed) statuses total ref = do
    r ← job_result env ns pj.job
    with_result pj (collect ns placed) statuses total r

  -- The changes of a backup that completes; only a backup of one node has a snapshot.
  unfoldable pub completion :
      List PlacedJob → List BackupJobStatus → ℕ → String → PbsBackupStatus → Act PbsBackupStatus
  completion placed statuses total ref s = do
    at ← or_now s.completed_at
    pure (record s {
      jobs = statuses;
      bytes = total;
      snapshot_ref = if eqb (length placed) 1 then ref else s.snapshot_ref;
      completed_at = at;
    })

  unfoldable pub finish_backup : PbsBackup → List PlacedJob → Collected → Act CtrlResult
  finish_backup b placed (bad_result p) = fail_backup b "ResultUnreadable" p placed
  finish_backup b placed (collected statuses total ref) =
      let message =
        if eqb (length placed) 1
        then "snapshot " +++ ref
        else decimal (length placed) +++ " node job(s) completed" in
      do
        r ←
            record_outcome b completed cond_true "Completed" message
              (completion placed statuses total ref)
        told r.0 false "Completed" message
        observe_completed r.1
        pure no_requeue

  -- `completeBackup`.
  unfoldable pub complete_backup : PbsBackup → List PlacedJob → Act CtrlResult
  complete_backup b placed = do
    c ← collect b.meta.namespace placed [] 0 ""
    finish_backup b placed c
