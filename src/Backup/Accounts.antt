-- ===== src/Backup/Accounts.antt =====
-- What a backup whose Jobs are complete records of their results.
use pbs_k8s_operator.Base.{
  ℕ, ◌%◌, ◌≡◌, refl, String, Bool, true, false, Option, none, some, List, [], ◌∷◌, length, eqb, All,
  if◌then◌else◌, ◌⊎◌, inl, inr, arith,
}
use pbs_k8s_operator.Kube.{Condition, ConditionStatus, cond_true, cond_false}
use pbs_k8s_operator.Types.{
  PbsBackup, PbsBackupStatus, BackupJobStatus, BackupPhase, completed, failed,
}
use pbs_k8s_operator.Reconcile.{M}
use pbs_k8s_operator.Reconcile.Returns.{Returns, Returns-pure, Returns-bind}
use pbs_k8s_operator.Reconcile.Effects.{
  Keeps, Keeps-pure, Keeps-send, Keeps-bind, Keeps-if, Adds-send, Adds-bind, keeps_rules,
}
use pbs_k8s_operator.Reconcile.Brings.{
  Brings, Brings-Adds, Brings-Keeps, Brings-if, Brings-bind, Brings-quiet,
}
use pbs_k8s_operator.Backup.Results.{
  Call, patch_status, event, success_gauge, duration_gauge, error_counter, Env, PlacedJob, result,
  unreadable, int64_modulus, job_result,
}
use pbs_k8s_operator.Backup.Outcome.{
  Collected, collected, bad_result, collect, record_outcome, told, or_now, send_metric, gauges,
  observe_completed, ended, observe_failed, fail_backup, completion, finish_backup, complete_backup,
}
use pbs_k8s_operator.Backup.Readings.{
  Accounts, Reading, Readings, collect-Accounts, entries_of, last_of, more, no_more, total_of,
}

-- The statuses that a log records.
abbrev pub posted : Call → List PbsBackupStatus
posted (patch_status st) = st ∷ []
posted _ = []

-- The reference of a backup of just one Job; with no or more Jobs the old one stays.
abbrev pub single : List Reading → String → String
single (r ∷ []) old = r.0
single _ old = old

module _ {W : Type 0} (env : Env W) (b : PbsBackup) (placed : List PlacedJob) where
  -- What a completed backup records: each Job's reference, the sum of the sizes as an int64, and the
  -- snapshot of a backup with just one Job.
  pub record IsAccount (st : PbsBackupStatus) : Type 0 where
    pub readings : List Reading
    pub read_from : Readings env b.meta.namespace placed readings
    pub complete : st.phase ≡ completed
    pub jobs : st.jobs ≡ entries_of placed readings
    pub bytes : st.bytes ≡ total_of readings % int64_modulus
    pub snapshot : st.snapshot_ref ≡ single readings b.status.snapshot_ref

  abbrev pub FailsOrAccounts : PbsBackupStatus → Type 0
  FailsOrAccounts st = (st.phase ≡ failed) ⊎ IsAccount st

  told-Quiet :
      (t warning : Bool) (reason message : String)
      → Keeps posted (told env t warning reason message)
  told-Quiet true warning reason message =
      Keeps-send (event warning reason message) (env.event warning reason message) refl
  told-Quiet false warning reason message = Keeps-pure tt

  metric-Quiet : (c : Call) → posted c ≡ [] → Keeps posted (send_metric env c)
  metric-Quiet c e = Keeps-send c (env.metric c) e

  or_now-Quiet : (t : Option ℕ) → Keeps posted (or_now env t)
  or_now-Quiet none = search keeps_rules
  or_now-Quiet (some t) = Keeps-pure (some t)

  gauges-Quiet : (at start : Option ℕ) → Keeps posted (gauges env at start)
  gauges-Quiet none start = Keeps-pure tt
  gauges-Quiet (some t) none = metric-Quiet (success_gauge t) refl
  gauges-Quiet (some t) (some u) =
      Keeps-bind _ _ (metric-Quiet (success_gauge t) refl)
        λ _. metric-Quiet (duration_gauge u t) refl

  collect-Quiet :
      (ps : List PlacedJob) (js : List BackupJobStatus) (n : ℕ) (ref : String)
      → Keeps posted (collect env b.meta.namespace ps js n ref)
  unfolding collect job_result
  collect-Quiet [] js n ref = Keeps-pure (collected js n ref)
  collect-Quiet (pj ∷ ps) js n ref =
      Keeps-bind _ _ (search keeps_rules)
        elim [ unreadable p ↦ Keeps-pure (bad_result p) | result r bytes ↦ collect-Quiet ps _ _ r ]

  -- A status is recorded, if at all, that satisfies what the change brings.
  record_outcome-Posted :
      (P : PbsBackupStatus → Type 0) (phase : BackupPhase) (status : ConditionStatus)
      (reason message : String) (extra : PbsBackupStatus → M W Call PbsBackupStatus)
      → ((s : PbsBackupStatus) → Keeps posted (extra s))
      → ((cs : List Condition)
          → Returns P (extra (record (b.status) { phase = phase; conditions = cs })))
      → Brings posted (All P) (record_outcome env b phase status reason message extra)
  unfolding record_outcome
  record_outcome-Posted P phase status reason message extra k r =
      Brings-bind _ _ (k _) (r _) tt λ after p.
        Brings-if (env.status_eq b.status after) _ _ (λ _. Brings-Keeps _ tt (search keeps_rules))
          (λ _.
            Brings-Adds (after ∷ []) _ (p, tt)
              (Adds-bind _ _ (after ∷ []) (Adds-send (patch_status after) (env.patch_status after))
                (λ _. search keeps_rules)))

  fail_backup-Posted :
      (reason message : String)
      → Brings posted (All FailsOrAccounts) (fail_backup env b reason message placed)
  unfolding fail_backup ended observe_failed
  fail_backup-Posted reason message =
      Brings-quiet _ _
        (record_outcome-Posted FailsOrAccounts failed cond_false reason message _
          (λ s. search (keeps_rules, or_now-Quiet))
          (λ cs. Returns-bind _ _ λ at. Returns-pure _ (inl refl)))
        λ t. Keeps-bind _ _ (told-Quiet t.0 true reason message) λ u.
          Keeps-bind _ _
            (Keeps-if env.has_metrics _ _ (metric-Quiet error_counter refl) (Keeps-pure tt))
            λ v. Keeps-pure _

  snapshot_lem :
      {ps : List PlacedJob} {rs : List Reading} (ref old : String)
      → Readings env b.meta.namespace ps rs
      → ref ≡ last_of "" rs
      → (if eqb (length ps) 1 then ref else old) ≡ single rs old
  snapshot_lem ref old no_more e = refl
  snapshot_lem ref old (more pj r ps rs i no_more) e = e
  snapshot_lem ref old (more pj r ps rs i (more pj' r' ps' rs' i' m)) e = ground arith

  finish_backup-Posted :
      (c : Collected)
      → Accounts env b.meta.namespace placed [] 0 "" c
      → Brings posted (All FailsOrAccounts) (finish_backup env b placed c)
  unfolding finish_backup completion observe_completed
  finish_backup-Posted (bad_result p) a = fail_backup-Posted "ResultUnreadable" p
  finish_backup-Posted (collected js n ref) (rs, readings, e, f, g) =
      Brings-quiet _ _
        (record_outcome-Posted FailsOrAccounts completed cond_true "Completed" _ _
          (λ s. search (keeps_rules, or_now-Quiet))
          (λ cs. Returns-bind _ _ λ at. Returns-pure _ (
            inr (record {
              readings = rs;
              read_from = readings;
              complete = refl;
              jobs = e;
              bytes = omega (arith, f);
              snapshot = snapshot_lem ref b.status.snapshot_ref readings g;
            }))))
        λ t. Keeps-bind _ _ (told-Quiet t.0 false "Completed" _) λ u.
          Keeps-bind _ _
            (Keeps-if env.has_metrics _ _ (gauges-Quiet t.1.completed_at t.1.started_at)
              (Keeps-pure tt))
            λ v. Keeps-pure _

  -- Whatever the API server answers, a status that the collection of a backup's results records is
  -- Failed, or it is Completed with an entry for each Job that has the reference that the Job's pods
  -- report, with the sum of the reported sizes modulo 2 ^ 64, and with the reported reference where
  -- there is just one Job.
  pub complete_backup-Accounts : Brings posted (All FailsOrAccounts) (complete_backup env b placed)
  unfolding complete_backup
  complete_backup-Accounts =
      Brings-bind _ _ (collect-Quiet placed [] 0 "")
        (collect-Accounts env b.meta.namespace placed [] 0 "" (omega arith)) tt
        λ c a. finish_backup-Posted c a
