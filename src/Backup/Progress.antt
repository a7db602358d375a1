-- ===== src/Backup/Progress.antt =====
-- A reconcile never leaves a backup that is not over without a way forward.
use mathlib.Core.Path.{subst}
use pbs_k8s_operator.Base.{
  ℕ, ◌≤◌, ◌<◌, String, true, false, ◌&&◌, Option, none, some, List, [], ◌∷◌, ◌≡◌, refl, sym, ap,
  ◌∙◌, arith,
}
use pbs_k8s_operator.Base.Text.{is_empty}
use pbs_k8s_operator.Kube.{ConditionStatus, cond_true, cond_false, Pod, PersistentVolumeClaim}
use pbs_k8s_operator.Types.{PbsBackup, PbsBackupStatus, BackupPhase, completed, failed, is_terminal}
use pbs_k8s_operator.Repo.Creds.{Resolved, usable, problem}
use pbs_k8s_operator.Reconcile.{M, Run, Outcome, got, on_got, CtrlResult}
use pbs_k8s_operator.Reconcile.Effects.{
  Keeps-pure, Keeps-need, Keeps-bind, Adds-bind, Adds-of_Keeps,
}
use pbs_k8s_operator.Reconcile.Returns.{Returns-pure, Returns-bind, Returns-any}
use pbs_k8s_operator.Reconcile.Sequence.{
  Gives, Gives-shift, Gives-Adds, Gives-if, Gives-chain, ask-known,
}
use pbs_k8s_operator.Reconcile.Posts.{IsLeft, Posts, Posts-pure, Posts-if, Posts-on_got, Posts-bind}
use pbs_k8s_operator.Reconcile.Progress
use pbs_k8s_operator.Reconcile.Progress.{Shows, Anything, closes}
use pbs_k8s_operator.Backup.Results.{Call, PlacedJob, job_statuses}
use pbs_k8s_operator.Backup.Outcome.{
  record_outcome, hold, run_backup, ended, fail_backup, Collected, collected, bad_result,
  completion, finish_backup, complete_backup,
}
use pbs_k8s_operator.Backup.Cluster.{Cluster}
use pbs_k8s_operator.Backup.Groups.{Groups}
use pbs_k8s_operator.Backup.Launch.{HookOutcome, hooks_done, hook_problem}
use pbs_k8s_operator.Backup.Reconciler.{
  no_elements, or_hold, settle_failed, settle, all_complete, first_failed, run_jobs, after_hooks,
  run_hooked, run_placed, run_selected, run_ready, gate, reconcile,
}
use pbs_k8s_operator.Backup.Phases.{
  Leaves, status-Adds, told-Keeps, observe_completed-Keeps, observe_failed-Keeps, ended-Leaves,
  completion-Leaves,
}
use pbs_k8s_operator.Backup.Deeds.{Deed, phase_recorded, deeds, deeds-Sees}

-- A final phase is recorded.
abbrev pub IsEnd : Deed → Type 0
IsEnd (phase_recorded phase) = is_terminal phase ≡ true
IsEnd _ = ⊥

abbrev pub GoesOn : CtrlResult → List Call → Type 0
GoesOn = Progress.GoesOn deeds IsEnd

module _ {W : Type 0} (cluster : Cluster W)
    (status_eq_lem : (a b : PbsBackupStatus) → cluster.ends.status_eq a b ≡ true → a ≡ b)
    (b : PbsBackup) (going : is_terminal b.status.phase ≡ false) where
  abbrev Recorded : {A : Type 0} → BackupPhase → A → List Deed → Type 0
  Recorded phase = Shows deeds IsEnd (phase_recorded phase)

  abbrev Ended : List Deed → Type 0
  Ended = Anything deeds IsEnd

  -- A final phase differs from that of the backup, so that it is recorded.
  record_outcome-Recorded :
      (phase : BackupPhase) (status : ConditionStatus) (reason message : String)
      (extra : PbsBackupStatus → M W Call PbsBackupStatus)
      → is_terminal phase ≡ true
      → Leaves cluster.ends deeds-Sees extra
      → Gives deeds
          (Recorded phase)
          Ended
          (record_outcome cluster.ends b phase status reason message extra)
  unfolding record_outcome
  record_outcome-Recorded phase status reason message extra final l =
      Gives-chain {R = λ (after : PbsBackupStatus) xs. (xs ≡ []) × (after.phase ≡ phase)}
        {E = Ended} _ _
        (Gives-Adds [] _ (λ after same. (refl, same)) tt (Adds-of_Keeps _ (l.quiet _)) (l.same _))
        (λ ys u. tt)
        λ after ys h.
          Gives-if (cluster.ends.status_eq b.status after) _ _
            (λ same.
              let clash : true ≡ false =
                sym final
                ∙ ap is_terminal (sym h.1)
                ∙ ap (λ (st : PbsBackupStatus). is_terminal st.phase)
                    (sym (status_eq_lem b.status after same))
                ∙ going in
              absurd (cc clash))
            λ _. Gives-shift {R = Recorded phase} {E = Ended} _ ys h.0 (
              Gives-Adds {Q = λ a. Unit {0}} (phase_recorded after.phase ∷ []) _
                (λ a u. ap (λ (q : BackupPhase). phase_recorded q ∷ []) h.1) tt
                (Adds-bind _ _ (phase_recorded after.phase ∷ [])
                  (status-Adds cluster.ends deeds-Sees after)
                  (λ r. Keeps-bind _ _ (Keeps-need r) λ u. Keeps-pure _))
                (Returns-any _))

  fail_backup-GoesOn :
      (reason message : String) (placed : List PlacedJob)
      → Posts GoesOn (fail_backup cluster.ends b reason message placed)
  unfolding fail_backup
  fail_backup-GoesOn reason message placed =
      closes deeds IsEnd (phase_recorded failed) _ _ refl
        (record_outcome-Recorded failed cond_false reason message
          (ended cluster.ends (job_statuses placed)) refl
          (ended-Leaves cluster.ends deeds-Sees (job_statuses placed)))
        (λ a.
          Keeps-bind _ _ (told-Keeps cluster.ends deeds-Sees a.0 true reason message)
            λ u. Keeps-bind _ _ (observe_failed-Keeps cluster.ends deeds-Sees) λ v. Keeps-pure _)
        (λ a. Returns-bind _ _ λ u. Returns-bind _ _ λ v. Returns-pure _ refl)

  finish_backup-GoesOn :
      (placed : List PlacedJob) (c : Collected)
      → Posts GoesOn (finish_backup cluster.ends b placed c)
  unfolding finish_backup
  finish_backup-GoesOn placed (bad_result p) = fail_backup-GoesOn "ResultUnreadable" p placed
  finish_backup-GoesOn placed (collected js n ref) =
      closes deeds IsEnd (phase_recorded completed) _ _ refl
        (record_outcome-Recorded completed cond_true "Completed" _
          (completion cluster.ends placed js n ref) refl
          (completion-Leaves cluster.ends deeds-Sees placed js n ref))
        (λ a. Keeps-bind _ _ (told-Keeps cluster.ends deeds-Sees a.0 false "Completed" _) λ u.
          Keeps-bind _ _ (observe_completed-Keeps cluster.ends deeds-Sees a.1) λ v. Keeps-pure _)
        (λ a. Returns-bind _ _ λ u. Returns-bind _ _ λ v. Returns-pure _ refl)

  hold-GoesOn :
      (reason message : String) (wait : ℕ)
      → 0 < wait
      → wait ≤ 300
      → Posts GoesOn (hold cluster.ends b reason message wait)
  unfolding hold
  hold-GoesOn reason message wait h k =
      Posts-bind _ _
        λ r. Posts-bind _ _ λ u. Posts-pure _ λ log. (omega (arith, h), omega (arith, k))

  or_hold-GoesOn :
      {A : Type 0} (reason : String) (r : Resolved A) (k : A → M W Call CtrlResult)
      → ((a : A) → Posts GoesOn (k a))
      → Posts GoesOn (or_hold cluster b reason r k)
  or_hold-GoesOn reason (problem p) k h = hold-GoesOn reason p 60 (omega arith) (omega arith)
  or_hold-GoesOn reason (usable a) k h = h a

  settle_failed-GoesOn :
      (placed : List PlacedJob) (o : Option PlacedJob)
      → Posts GoesOn (settle_failed cluster b placed o)
  unfolding complete_backup run_backup
  settle_failed-GoesOn placed (some pj) = fail_backup-GoesOn "Failed" _ placed
  settle_failed-GoesOn placed none =
      Posts-if (all_complete placed) _ _ (Posts-bind _ _ λ c. finish_backup-GoesOn placed c)
        (Posts-bind _ _ λ r. Posts-bind _ _ λ u. Posts-pure _ λ log. (omega arith, omega arith))

  run_jobs-GoesOn :
      (sec staging : String) (groups : Groups)
      → Posts GoesOn (run_jobs cluster b sec staging groups)
  unfolding run_jobs settle
  run_jobs-GoesOn sec staging groups = Posts-bind _ _ λ r.
      or_hold-GoesOn "JobDeleted" r _ λ placed. settle_failed-GoesOn placed (first_failed placed)

  after_hooks-GoesOn :
      (r : HookOutcome) (k : M W Call CtrlResult)
      → Posts GoesOn k
      → Posts GoesOn (after_hooks cluster b r k)
  after_hooks-GoesOn (hook_problem reason p) k h = fail_backup-GoesOn reason p []
  after_hooks-GoesOn hooks_done k h = h

  run_hooked-GoesOn :
      (sec staging : String) (pvcs : List PersistentVolumeClaim) (pods : List Pod) (groups : Groups)
      → Posts GoesOn (run_hooked cluster b sec staging pvcs pods groups)
  unfolding run_hooked
  run_hooked-GoesOn sec staging pvcs pods groups =
      Posts-if (no_elements b.status.jobs) _ _
        (Posts-bind _ _ λ r. after_hooks-GoesOn r _ (run_jobs-GoesOn sec staging groups))
        (run_jobs-GoesOn sec staging groups)

  run_selected-GoesOn : (sec : String) → Posts GoesOn (run_selected cluster b sec)
  unfolding run_selected run_placed
  run_selected-GoesOn sec = Posts-bind _ _ λ r. or_hold-GoesOn "PlacementFailed" r _ λ pvcs.
      Posts-bind _ _ λ staging.
        Posts-if (no_elements pvcs && is_empty staging) _ _
          (hold-GoesOn "NoPVCsSelected" _ 300 (omega arith) (omega arith))
          (Posts-bind _ _ λ answered. Posts-bind _ _ λ pods. Posts-bind _ _ λ groups.
            or_hold-GoesOn "PlacementFailed" groups _ (run_hooked-GoesOn sec staging pvcs pods))

  gate-GoesOn : Posts GoesOn (gate cluster b)
  unfolding gate run_ready
  gate-GoesOn = Posts-bind _ _ λ r.
      Posts-on_got r _ _ (hold-GoesOn "RepoNotReady" _ 60 (omega arith) (omega arith)) λ repo.
        Posts-if (cluster.ends.conditions.is_status_condition_true repo.status.conditions "Ready") _
          _ (Posts-bind _ _ λ sec. or_hold-GoesOn "SecretCopyFailed" sec _ run_selected-GoesOn)
          (hold-GoesOn "RepoNotReady" _ 60 (omega arith) (omega arith))

  -- Where `reflect.DeepEqual` holds of equal statuses alone, a reconcile that reads a backup that is
  -- not over never loses it: it ends with an error, which the controller retries, or the controller
  -- comes back to the backup within five minutes, or the last that the reconcile does is to record
  -- that the backup is Completed or Failed.
  pub reconcile-GoesOn :
      (s : Run W Call) (w : W)
      → cluster.get_backup s.world ≡ (got b, w)
      → IsLeft GoesOn (reconcile cluster s).0 (reconcile cluster s).1.log
  unfolding reconcile on_got
  reconcile-GoesOn s w e =
      subst (λ (o : Outcome CtrlResult × Run W Call). IsLeft GoesOn o.0 o.1.log)
        (sym (ask-known cluster.get_backup _ s (got b) w e))
        (rw going (gate-GoesOn.at (record s { world = w })))
