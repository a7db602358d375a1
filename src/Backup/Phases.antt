-- ===== src/Backup/Phases.antt =====
-- What the ends of a backup's reconcile add to a view that shows the phases that are recorded, among
-- other requests.
use mathlib.Core.Path.{subst}
use pbs_k8s_operator.Base.{
  ℕ, String, Bool, true, false, Option, none, some, List, [], ◌∷◌, ◌≡◌, refl, sym, All,
}
use pbs_k8s_operator.Kube.{ConditionStatus, cond_true, cond_false}
use pbs_k8s_operator.Types.{
  PbsBackup, PbsBackupStatus, BackupJobStatus, BackupPhase, running, completed, failed,
}
use pbs_k8s_operator.Reconcile.{M, pure, send}
use pbs_k8s_operator.Reconcile.Effects.{
  Adds, Keeps, Keeps-pure, Keeps-send, Keeps-bind, Adds-send, Adds-bind, keeps_rules,
}
use pbs_k8s_operator.Reconcile.Returns.{Returns, Returns-pure, Returns-bind, Returns-any}
use pbs_k8s_operator.Reconcile.Brings.{
  Brings, Brings-Adds, Brings-Keeps, Brings-if, Brings-bind, Brings-quiet,
}
use pbs_k8s_operator.Backup.Results.{
  Call, patch_status, event, success_gauge, duration_gauge, error_counter, Env, PlacedJob,
  JobResult, result, unreadable, job_result, job_statuses,
}
use pbs_k8s_operator.Backup.Outcome.{
  record_outcome, told, or_now, held_phase, hold, send_metric, gauges, observe_completed,
  observe_failed, ended, fail_backup, Collected, collected, bad_result, with_result, collect,
  completion, launched, run_backup, finish_backup, complete_backup,
}

-- The ends of a reconcile appear in the view as the phases that they record, with a tag.
pub record Sees {V : Type 0} (see : Call → List V) (tag : BackupPhase → V) : Type 0 where
  pub on_status : (st : PbsBackupStatus) → see (patch_status st) ≡ tag st.phase ∷ []
  pub on_event : (w : Bool) (r t : String) → see (event w r t) ≡ []
  pub on_success : (n : ℕ) → see (success_gauge n) ≡ []
  pub on_duration : (m n : ℕ) → see (duration_gauge m n) ≡ []
  pub on_error : see error_counter ≡ []

module _ {W V : Type 0} (env : Env W) {see : Call → List V} {tag : BackupPhase → V}
    (sees : Sees see tag) where
  pub status-Adds :
      (st : PbsBackupStatus)
      → Adds see (tag st.phase ∷ []) (send (patch_status st) (env.patch_status st))
  status-Adds st =
      subst (λ xs. Adds see xs (send (patch_status st) (env.patch_status st))) (sees.on_status st)
        (Adds-send (patch_status st) (env.patch_status st))

  -- An action that changes no phase.
  pub record Leaves (extra : PbsBackupStatus → M W Call PbsBackupStatus) : Type 0 where
    pub quiet : (s : PbsBackupStatus) → Keeps see (extra s)
    pub same :
        (s : PbsBackupStatus) → Returns (λ (t : PbsBackupStatus). t.phase ≡ s.phase) (extra s)

  record_outcome-Brings :
      (R : V → Type 0) (b : PbsBackup) (phase : BackupPhase) (status : ConditionStatus)
      (reason message : String) (extra : PbsBackupStatus → M W Call PbsBackupStatus)
      → R (tag phase)
      → Leaves extra
      → Brings see (All R) (record_outcome env b phase status reason message extra)
  unfolding record_outcome
  record_outcome-Brings R b phase status reason message extra r l =
      Brings-bind _ _ (l.quiet _) (l.same _) tt λ after same.
        Brings-if (env.status_eq b.status after) _ _ (λ _. Brings-Keeps _ tt (search keeps_rules))
          (λ _.
            Brings-Adds (tag after.phase ∷ []) _
              (subst (λ (q : BackupPhase). R (tag q)) (sym same) r, tt)
              (Adds-bind _ _ (tag after.phase ∷ []) (status-Adds after) (λ _. search keeps_rules)))

  pub told-Keeps :
      (t warning : Bool) (reason message : String) → Keeps see (told env t warning reason message)
  told-Keeps true warning reason message =
      Keeps-send (event warning reason message) (env.event warning reason message)
        (sees.on_event warning reason message)
  told-Keeps false warning reason message = Keeps-pure tt

  or_now-Keeps : (t : Option ℕ) → Keeps see (or_now env t)
  or_now-Keeps none = search keeps_rules
  or_now-Keeps (some t) = Keeps-pure (some t)

  gauges-Keeps : (at start : Option ℕ) → Keeps see (gauges env at start)
  gauges-Keeps none start = Keeps-pure tt
  gauges-Keeps (some t) none =
      Keeps-send (success_gauge t) (env.metric (success_gauge t)) (sees.on_success t)
  gauges-Keeps (some t) (some u) =
      Keeps-bind _ _
        (Keeps-send (success_gauge t) (env.metric (success_gauge t)) (sees.on_success t))
        λ _.
          Keeps-send (duration_gauge u t) (env.metric (duration_gauge u t)) (sees.on_duration u t)

  pub observe_completed-Keeps : (s : PbsBackupStatus) → Keeps see (observe_completed env s)
  unfolding observe_completed
  observe_completed-Keeps s = search (keeps_rules, gauges-Keeps)

  error_counter-Keeps : Keeps see (send_metric env error_counter)
  error_counter-Keeps = Keeps-send error_counter (env.metric error_counter) sees.on_error

  pub observe_failed-Keeps : Keeps see (observe_failed env)
  unfolding observe_failed
  observe_failed-Keeps = search (keeps_rules, error_counter-Keeps)

  pub ended-Leaves : (js : List BackupJobStatus) → Leaves (ended env js)
  unfolding ended
  ended-Leaves js = record {
    quiet = λ s. search (keeps_rules, or_now-Keeps);
    same = λ s. Returns-bind _ _ λ at. Returns-pure _ refl;
  }

  pub completion-Leaves :
      (placed : List PlacedJob) (js : List BackupJobStatus) (n : ℕ) (ref : String)
      → Leaves (completion env placed js n ref)
  unfolding completion
  completion-Leaves placed js n ref = record {
    quiet = λ s. search (keeps_rules, or_now-Keeps);
    same = λ s. Returns-bind _ _ λ at. Returns-pure _ refl;
  }

  pure-Leaves : Leaves pure
  pure-Leaves = record { quiet = λ s. Keeps-pure s; same = λ s. Returns-pure s refl }

  job_result-Keeps : (ns : String) (pj : PlacedJob) → Keeps see (job_result env ns pj.job)
  unfolding job_result
  job_result-Keeps ns pj = search keeps_rules

  with_result-Keeps :
      (pj : PlacedJob) (rest : List BackupJobStatus → ℕ → String → M W Call Collected)
      (js : List BackupJobStatus) (n : ℕ) (r : JobResult)
      → ((js : List BackupJobStatus) (n : ℕ) (ref : String) → Keeps see (rest js n ref))
      → Keeps see (with_result env pj rest js n r)
  with_result-Keeps pj rest js n (unreadable p) k = Keeps-pure (bad_result p)
  with_result-Keeps pj rest js n (result ref bytes) k = k _ _ _

  collect-Keeps :
      (ns : String) (placed : List PlacedJob) (js : List BackupJobStatus) (n : ℕ) (ref : String)
      → Keeps see (collect env ns placed js n ref)
  unfolding collect
  collect-Keeps ns [] js n ref = Keeps-pure (collected js n ref)
  collect-Keeps ns (pj ∷ placed) js n ref =
      Keeps-bind _ _ (job_result-Keeps ns pj)
        λ r. with_result-Keeps pj (collect env ns placed) js n r (collect-Keeps ns placed)

  launched-Leaves : (placed : List PlacedJob) → Leaves (launched env placed)
  unfolding launched
  launched-Leaves placed = record {
    quiet = λ s. search (keeps_rules, or_now-Keeps);
    same = λ s. Returns-bind _ _ λ at. Returns-pure _ refl;
  }

  module _ (R : V → Type 0) where
    pub hold-Brings :
        (b : PbsBackup) (reason message : String) (wait : ℕ)
        → R (tag (held_phase b.status.phase))
        → Brings see (All R) (hold env b reason message wait)
    unfolding hold
    hold-Brings b reason message wait r =
        Brings-quiet _ _
          (record_outcome-Brings R b (held_phase b.status.phase) cond_false reason message pure r
            pure-Leaves)
          (λ t. search (keeps_rules, told-Keeps))

    pub run_backup-Brings :
        (b : PbsBackup) (placed : List PlacedJob)
        → R (tag running)
        → Brings see (All R) (run_backup env b placed)
    unfolding run_backup
    run_backup-Brings b placed r =
        Brings-quiet _ _
          (record_outcome-Brings R b running cond_false "Running" "backup jobs running"
            (launched env placed) r (launched-Leaves placed))
          (λ t. search (keeps_rules, told-Keeps))

    pub fail_backup-Brings :
        (b : PbsBackup) (reason message : String) (placed : List PlacedJob)
        → R (tag failed)
        → Brings see (All R) (fail_backup env b reason message placed)
    unfolding fail_backup
    fail_backup-Brings b reason message placed r =
        Brings-quiet _ _
          (record_outcome-Brings R b failed cond_false reason message
            (ended env (job_statuses placed)) r (ended-Leaves (job_statuses placed)))
          (λ t. search (keeps_rules, told-Keeps, observe_failed-Keeps))

    finish_backup-Brings :
        (b : PbsBackup) (placed : List PlacedJob) (c : Collected)
        → R (tag completed)
        → R (tag failed)
        → Brings see (All R) (finish_backup env b placed c)
    unfolding finish_backup
    finish_backup-Brings b placed (bad_result p) rc rf =
        fail_backup-Brings b "ResultUnreadable" p placed rf
    finish_backup-Brings b placed (collected js n ref) rc rf =
        Brings-quiet _ _
          (record_outcome-Brings R b completed cond_true "Completed" _
            (completion env placed js n ref) rc (completion-Leaves placed js n ref))
          (λ t. search (keeps_rules, told-Keeps, observe_completed-Keeps))

    pub complete_backup-Brings :
        (b : PbsBackup) (placed : List PlacedJob)
        → R (tag completed)
        → R (tag failed)
        → Brings see (All R) (complete_backup env b placed)
    unfolding complete_backup
    complete_backup-Brings b placed rc rf =
        Brings-bind _ _ (collect-Keeps b.meta.namespace placed [] 0 "") (Returns-any _) tt
          λ c _. finish_backup-Brings b placed c rc rf
