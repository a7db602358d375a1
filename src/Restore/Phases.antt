-- ===== src/Restore/Phases.antt =====
-- What the ends of a restore's reconcile add to a view that shows the phases that are recorded, among
-- other requests.
use mathlib.Core.Path.{subst}
use pbs_k8s_operator.Base.{
  ℕ, String, Bool, true, false, Option, none, some, List, [], ◌∷◌, ◌≡◌, refl, sym, All,
  if◌then◌else◌, ◌==◌,
}
use pbs_k8s_operator.Kube.{ConditionStatus, cond_true, cond_false}
use pbs_k8s_operator.Types.{PbsRestore, PbsRestoreStatus, RestorePhase}
use pbs_k8s_operator.Reconcile.{M, pure, send, ◌>>=◌, CtrlResult, requeue_after, seconds}
use pbs_k8s_operator.Reconcile.Effects.{
  Adds, Keeps, Keeps-pure, Keeps-send, Adds-send, Adds-bind, keeps_rules,
}
use pbs_k8s_operator.Reconcile.Returns.{Returns, Returns-pure, Returns-bind}
use pbs_k8s_operator.Reconcile.Brings.{
  Brings, Brings-Adds, Brings-Keeps, Brings-if, Brings-bind, Brings-quiet,
}
use pbs_k8s_operator.Restore.Status.{hold_phase}
use pbs_k8s_operator.Restore.Steps.{
  Call, patch_status, event, Env, Ensured, job_done, job_pending, job_problem, live_jobs,
  record_restore, told, hold_restore, or_now, finished, complete_restore, fail_restore, started,
  requeue_or_hold,
}

-- The ends of a reconcile appear in the view as the phases that they record, with a tag.
pub record Sees {V : Type 0} (see : Call → List V) (tag : RestorePhase → V) : Type 0 where
  pub on_status : (st : PbsRestoreStatus) → see (patch_status st) ≡ tag st.phase ∷ []
  pub on_event : (w : Bool) (r t : String) → see (event w r t) ≡ []

-- The phase that an outcome of `ensureJob` leads to.
abbrev pub next_phase : PbsRestore → RestorePhase → Ensured → RestorePhase
next_phase rs phase (job_problem reason message) =
    if reason == "Failed" then RestorePhase.failed else hold_phase rs.status.phase
next_phase rs phase _ = phase

module _ {W V : Type 0} (env : Env W) {see : Call → List V} {tag : RestorePhase → V}
    (sees : Sees see tag) where
  pub status-Adds :
      (st : PbsRestoreStatus)
      → Adds see (tag st.phase ∷ []) (send (patch_status st) (env.patch_status st))
  status-Adds st =
      subst (λ xs. Adds see xs (send (patch_status st) (env.patch_status st))) (sees.on_status st)
        (Adds-send (patch_status st) (env.patch_status st))

  -- An action that changes no phase.
  pub record Leaves (extra : PbsRestoreStatus → M W Call PbsRestoreStatus) : Type 0 where
    pub quiet : (s : PbsRestoreStatus) → Keeps see (extra s)
    pub same :
        (s : PbsRestoreStatus) → Returns (λ (t : PbsRestoreStatus). t.phase ≡ s.phase) (extra s)

  pub told-Keeps :
      (t warning : Bool) (reason message : String) → Keeps see (told env t warning reason message)
  told-Keeps true warning reason message =
      Keeps-send (event warning reason message) (env.event warning reason message)
        (sees.on_event warning reason message)
  told-Keeps false warning reason message = Keeps-pure tt

  or_now-Keeps : (t : Option ℕ) → Keeps see (or_now env t)
  or_now-Keeps none = search keeps_rules
  or_now-Keeps (some t) = Keeps-pure (some t)

  live_jobs-Keeps : (rs : PbsRestore) → Keeps see (live_jobs env rs)
  unfolding live_jobs
  live_jobs-Keeps rs = search keeps_rules

  pure-Leaves : Leaves pure
  pure-Leaves = record { quiet = λ s. Keeps-pure s; same = λ s. Returns-pure s refl }

  pub finished-Leaves : (rs : PbsRestore) → Leaves (finished env rs)
  unfolding finished
  finished-Leaves rs = record {
    quiet = λ s. search (keeps_rules, live_jobs-Keeps, or_now-Keeps);
    same = λ s. Returns-bind _ _ λ jobs. Returns-bind _ _ λ at. Returns-pure _ refl;
  }

  started-Leaves : (rs : PbsRestore) → Leaves (started env rs)
  unfolding started
  started-Leaves rs = record {
    quiet = λ s. search (keeps_rules, live_jobs-Keeps, or_now-Keeps);
    same = λ s. Returns-bind _ _ λ jobs. Returns-bind _ _ λ at. Returns-pure _ refl;
  }

  module _ (R : V → Type 0) where
    record_restore-Brings :
        (rs : PbsRestore) (phase : RestorePhase) (status : ConditionStatus)
        (reason message : String) (extra : PbsRestoreStatus → M W Call PbsRestoreStatus)
        → R (tag phase)
        → Leaves extra
        → Brings see (All R) (record_restore env rs phase status reason message extra)
    unfolding record_restore
    record_restore-Brings rs phase status reason message extra r l =
        Brings-bind _ _ (l.quiet _) (l.same _) tt λ after same.
          Brings-if (env.status_eq rs.status after) _ _
            (λ _. Brings-Keeps _ tt (search keeps_rules))
            (λ _.
              Brings-Adds (tag after.phase ∷ []) _
                (subst (λ (q : RestorePhase). R (tag q)) (sym same) r, tt)
                (Adds-bind _ _ (tag after.phase ∷ []) (status-Adds after)
                  (λ _. search keeps_rules)))

    pub hold_restore-Brings :
        (rs : PbsRestore) (reason message : String) (wait : ℕ)
        → R (tag (hold_phase rs.status.phase))
        → Brings see (All R) (hold_restore env rs reason message wait)
    unfolding hold_restore
    hold_restore-Brings rs reason message wait r =
        Brings-quiet _ _
          (record_restore-Brings rs (hold_phase rs.status.phase) cond_false reason message pure r
            pure-Leaves)
          (λ t. search (keeps_rules, told-Keeps))

    pub complete_restore-Brings :
        (rs : PbsRestore)
        → R (tag RestorePhase.completed)
        → Brings see (All R) (complete_restore env rs)
    unfolding complete_restore
    complete_restore-Brings rs r =
        Brings-quiet _ _
          (record_restore-Brings rs RestorePhase.completed cond_true "Completed" _ (finished env rs)
            r (finished-Leaves rs))
          (λ t. search (keeps_rules, told-Keeps))

    pub fail_restore-Brings :
        (rs : PbsRestore) (reason message : String)
        → R (tag RestorePhase.failed)
        → Brings see (All R) (fail_restore env rs reason message)
    unfolding fail_restore
    fail_restore-Brings rs reason message r =
        Brings-quiet _ _
          (record_restore-Brings rs RestorePhase.failed cond_false reason message (finished env rs)
            r (finished-Leaves rs))
          (λ t. search (keeps_rules, told-Keeps))

    running-Brings :
        (rs : PbsRestore) (phase : RestorePhase) (message : String)
        → R (tag phase)
        → Brings see (All R) (
            record_restore env rs phase cond_false "Running" message (started env rs) >>= λ t.
            pure (requeue_after (seconds 60)))
    running-Brings rs phase message r =
        Brings-quiet _ _
          (record_restore-Brings rs phase cond_false "Running" message (started env rs) r
            (started-Leaves rs))
          (λ t. search keeps_rules)

    either :
        (b : Bool) (p q : RestorePhase) (m n : M W Call CtrlResult)
        → R (tag (if b then p else q))
        → (R (tag p) → Brings see (All R) m)
        → (R (tag q) → Brings see (All R) n)
        → Brings see (All R) (if b then m else n)
    either true p q m n r h k = h r
    either false p q m n r h k = k r

    pub requeue_or_hold-Brings :
        (rs : PbsRestore) (phase : RestorePhase) (e : Ensured)
        → R (tag (next_phase rs phase e))
        → Brings see (All R) (requeue_or_hold env rs phase e)
    unfolding requeue_or_hold
    requeue_or_hold-Brings rs phase (job_problem reason message) r =
        either (reason == "Failed") RestorePhase.failed (hold_phase rs.status.phase) _ _ r
          (fail_restore-Brings rs reason message) (hold_restore-Brings rs reason message 60)
    requeue_or_hold-Brings rs phase job_done r = running-Brings rs phase _ r
    requeue_or_hold-Brings rs phase job_pending r = running-Brings rs phase _ r
