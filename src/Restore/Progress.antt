-- ===== src/Restore/Progress.antt =====
-- A reconcile never leaves a restore that is not over without a way forward.
use mathlib.Core.Path.{subst}
use pbs_k8s_operator.Base.{String, true, false, List, [], ◌∷◌, ◌≡◌, refl, sym, ap, ◌∙◌, arith, ◌==◌}
use pbs_k8s_operator.Base.Text.{is_empty}
use pbs_k8s_operator.Kube.{ConditionStatus, cond_true, cond_false, value_at}
use pbs_k8s_operator.Types.{PbsRestore, PbsRestoreStatus, RestorePhase}
use pbs_k8s_operator.Repo.Creds.{Resolved, usable, problem}
use pbs_k8s_operator.RestorePlan.Parse.{ParsedDoc, Result, ok, err, parse_api_manifests}
use pbs_k8s_operator.Reconcile.{M, Run, Outcome, got, on_got, CtrlResult}
use pbs_k8s_operator.Reconcile.Effects.{
  Keeps-pure, Keeps-need, Keeps-bind, Adds-bind, Adds-of_Keeps,
}
use pbs_k8s_operator.Reconcile.Returns.{Returns-pure, Returns-bind, Returns-any}
use pbs_k8s_operator.Reconcile.Sequence.{
  Gives, Gives-shift, Gives-Adds, Gives-if, Gives-chain, ask-known,
}
use pbs_k8s_operator.Reconcile.Posts.{IsLeft, Posts, Posts-pure, Posts-if, Posts-on_got, Posts-bind}
use pbs_k8s_operator.Reconcile.Progress
use pbs_k8s_operator.Reconcile.Progress.{Shows, Anything, closes}
use pbs_k8s_operator.Restore.Status.{validate_spec}
use pbs_k8s_operator.Restore.Steps.{
  Call, Ensured, job_done, job_pending, job_problem, record_restore, hold_restore, finished,
  complete_restore, fail_restore, requeue_or_hold,
}
use pbs_k8s_operator.Restore.Access.{Cluster}
use pbs_k8s_operator.Restore.Pipeline.{
  is_over, unless_done, run_workload, run_claims, run_parsed, run_volumes, run_pre, run_staged,
  run_fetch, or_hold, run_ready, gate, run_restore, reconcile,
}
use pbs_k8s_operator.Restore.Phases.{status-Adds, told-Keeps, finished-Leaves}
use pbs_k8s_operator.Restore.Evidence.{Deed, phase_recorded, deeds, deeds-Sees}

-- A final phase is recorded.
abbrev pub IsEnd : Deed → Type 0
IsEnd (phase_recorded phase) = is_over phase ≡ true
IsEnd _ = ⊥

abbrev pub GoesOn : CtrlResult → List Call → Type 0
GoesOn = Progress.GoesOn deeds IsEnd

module _ {W : Type 0} (cluster : Cluster W)
    (status_eq_lem : (a b : PbsRestoreStatus) → cluster.steps.status_eq a b ≡ true → a ≡ b)
    (rs : PbsRestore) (going : is_over rs.status.phase ≡ false) where
  abbrev Recorded : {A : Type 0} → RestorePhase → A → List Deed → Type 0
  Recorded phase = Shows deeds IsEnd (phase_recorded phase)

  abbrev Ended : List Deed → Type 0
  Ended = Anything deeds IsEnd

  -- A final phase differs from that of the restore, so that it is recorded.
  record_restore-Recorded :
      (phase : RestorePhase) (status : ConditionStatus) (reason message : String)
      → is_over phase ≡ true
      → Gives deeds
          (Recorded phase)
          Ended
          (record_restore cluster.steps rs phase status reason message (finished cluster.steps rs))
  unfolding record_restore
  record_restore-Recorded phase status reason message final =
      let l = finished-Leaves cluster.steps deeds-Sees rs in
      Gives-chain {R = λ (after : PbsRestoreStatus) xs. (xs ≡ []) × (after.phase ≡ phase)}
        {E = Ended} _ _
        (Gives-Adds [] _ (λ after same. (refl, same)) tt (Adds-of_Keeps _ (l.quiet _)) (l.same _))
        (λ ys u. tt)
        λ after ys h.
          Gives-if (cluster.steps.status_eq rs.status after) _ _
            (λ same.
              let clash : true ≡ false =
                sym final
                ∙ ap is_over (sym h.1)
                ∙ ap (λ (st : PbsRestoreStatus). is_over st.phase)
                    (sym (status_eq_lem rs.status after same))
                ∙ going in
              absurd (cc clash))
            λ _. Gives-shift {R = Recorded phase} {E = Ended} _ ys h.0 (
              Gives-Adds {Q = λ a. Unit {0}} (phase_recorded after.phase ∷ []) _
                (λ a u. ap (λ (q : RestorePhase). phase_recorded q ∷ []) h.1) tt
                (Adds-bind _ _ (phase_recorded after.phase ∷ [])
                  (status-Adds cluster.steps deeds-Sees after)
                  (λ r. Keeps-bind _ _ (Keeps-need r) λ u. Keeps-pure _))
                (Returns-any _))

  fail_restore-GoesOn :
      (reason message : String) → Posts GoesOn (fail_restore cluster.steps rs reason message)
  unfolding fail_restore
  fail_restore-GoesOn reason message =
      closes deeds IsEnd (phase_recorded RestorePhase.failed) _ _ refl
        (record_restore-Recorded RestorePhase.failed cond_false reason message refl)
        (λ t.
          Keeps-bind _ _ (told-Keeps cluster.steps deeds-Sees t true reason message)
            λ u. Keeps-pure _)
        (λ t. Returns-bind _ _ λ u. Returns-pure _ refl)

  complete_restore-GoesOn : Posts GoesOn (complete_restore cluster.steps rs)
  unfolding complete_restore
  complete_restore-GoesOn =
      closes deeds IsEnd (phase_recorded RestorePhase.completed) _ _ refl
        (record_restore-Recorded RestorePhase.completed cond_true "Completed" _ refl)
        (λ t.
          Keeps-bind _ _ (told-Keeps cluster.steps deeds-Sees t false "Completed" _)
            λ u. Keeps-pure _)
        (λ t. Returns-bind _ _ λ u. Returns-pure _ refl)

  hold_restore-GoesOn :
      (reason message : String) → Posts GoesOn (hold_restore cluster.steps rs reason message 60)
  unfolding hold_restore
  hold_restore-GoesOn reason message =
      Posts-bind _ _ λ t. Posts-bind _ _ λ u. Posts-pure _ λ log. (omega arith, omega arith)

  requeue_or_hold-GoesOn :
      (phase : RestorePhase) (e : Ensured) → Posts GoesOn (requeue_or_hold cluster.steps rs phase e)
  unfolding requeue_or_hold
  requeue_or_hold-GoesOn phase (job_problem reason message) =
      Posts-if (reason == "Failed") _ _ (fail_restore-GoesOn reason message)
        (hold_restore-GoesOn reason message)
  requeue_or_hold-GoesOn phase job_done =
      Posts-bind _ _ λ t. Posts-pure _ λ log. (omega arith, omega arith)
  requeue_or_hold-GoesOn phase job_pending =
      Posts-bind _ _ λ t. Posts-pure _ λ log. (omega arith, omega arith)

  unless_done-GoesOn :
      (phase : RestorePhase) (rest : M W Call CtrlResult) (e : Ensured)
      → Posts GoesOn rest
      → Posts GoesOn (unless_done cluster rs phase rest e)
  unless_done-GoesOn phase rest job_done h = h
  unless_done-GoesOn phase rest job_pending h = requeue_or_hold-GoesOn phase job_pending
  unless_done-GoesOn phase rest (job_problem reason message) h =
      requeue_or_hold-GoesOn phase (job_problem reason message)

  run_workload-GoesOn : (sec : String) → Posts GoesOn (run_workload cluster rs sec)
  unfolding run_workload
  run_workload-GoesOn sec =
      Posts-bind _ _
        λ e. unless_done-GoesOn RestorePhase.applying_workloads _ e complete_restore-GoesOn

  run_claims-GoesOn :
      (sec : String) (docs : List ParsedDoc) (pvcs : List String)
      → Posts GoesOn (run_claims cluster rs sec docs pvcs)
  run_claims-GoesOn sec docs [] = run_workload-GoesOn sec
  run_claims-GoesOn sec docs (pvc ∷ pvcs) =
      Posts-bind _ _
        λ e. unless_done-GoesOn RestorePhase.restoring_volumes _ e (run_workload-GoesOn sec)

  run_parsed-GoesOn :
      (sec : String) (r : Result (List ParsedDoc)) → Posts GoesOn (run_parsed cluster rs sec r)
  run_parsed-GoesOn sec (err e) = fail_restore-GoesOn "InvalidSpec" _
  run_parsed-GoesOn sec (ok docs) = run_claims-GoesOn sec docs _

  run_fetch-GoesOn : (sec : String) → Posts GoesOn (run_fetch cluster rs sec)
  unfolding run_fetch run_staged run_pre run_volumes
  run_fetch-GoesOn sec = Posts-bind _ _ λ e. unless_done-GoesOn RestorePhase.staging_api _ e (
      Posts-bind _ _ λ r. Posts-on_got r _ _ (hold_restore-GoesOn "ApiManifestMissing" _) λ cm.
        Posts-bind _ _ λ u. Posts-bind _ _ λ pre.
          unless_done-GoesOn RestorePhase.staging_api _ pre (
            run_parsed-GoesOn sec (
              parse_api_manifests cluster.yaml (value_at "api.yaml" cm.entries)
                rs.spec.target_namespace)))

  or_hold-GoesOn :
      {A : Type 0} (reason : String) (r : Resolved A) (k : A → M W Call CtrlResult)
      → ((a : A) → Posts GoesOn (k a))
      → Posts GoesOn (or_hold cluster rs reason r k)
  or_hold-GoesOn reason (problem p) k h = hold_restore-GoesOn reason p
  or_hold-GoesOn reason (usable a) k h = h a

  run_restore-GoesOn : Posts GoesOn (run_restore cluster rs)
  unfolding run_restore gate run_ready
  run_restore-GoesOn =
      Posts-if (is_empty (validate_spec rs)) _ _
        (Posts-bind _ _ λ r. Posts-on_got r _ _ (hold_restore-GoesOn "RepoNotReady" _) λ repo.
          Posts-if
            (cluster.steps.conditions.is_status_condition_true repo.status.conditions "Ready") _ _
            (Posts-bind _ _ λ ns. or_hold-GoesOn "TargetNamespaceTerminating" ns _ λ u.
              Posts-bind _ _ λ copied.
                or_hold-GoesOn "SecretCopyFailed" copied _
                  λ sec. Posts-bind _ _ λ v. run_fetch-GoesOn sec)
            (hold_restore-GoesOn "RepoNotReady" _))
        (fail_restore-GoesOn "InvalidSpec" (validate_spec rs))

  -- Where `reflect.DeepEqual` holds of equal statuses alone, a reconcile that reads a restore that is
  -- not over never loses it: it ends with an error, which the controller retries, or the controller
  -- comes back to the restore within five minutes, or the last that the reconcile does is to record
  -- that the restore is Completed or Failed.
  pub restore-GoesOn :
      (s : Run W Call) (w : W)
      → cluster.get_restore s.world ≡ (got rs, w)
      → IsLeft GoesOn (reconcile cluster s).0 (reconcile cluster s).1.log
  unfolding reconcile on_got
  restore-GoesOn s w e =
      subst (λ (o : Outcome CtrlResult × Run W Call). IsLeft GoesOn o.0 o.1.log)
        (sym (ask-known cluster.get_restore _ s (got rs) w e))
        (rw going (run_restore-GoesOn.at (record s { world = w })))
