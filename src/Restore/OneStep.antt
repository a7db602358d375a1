-- ===== src/Restore/OneStep.antt =====
-- How the end of a step of the pipeline appears in what a reconcile of a restore does.
use mathlib.Core.Path.{subst}
use mathlib.Core.List.{append-nil}
use pbs_k8s_operator.Base.{
  ℕ, String, Bool, true, false, List, [], ◌++◌, sym, inl, All, if◌then◌else◌, ◌==◌,
}
use pbs_k8s_operator.Types.{PbsRestore, RestorePhase}
use pbs_k8s_operator.Repo.Creds.{Resolved, usable, problem}
use pbs_k8s_operator.Reconcile.{M, ◌>>=◌, CtrlResult}
use pbs_k8s_operator.Reconcile.Effects.{Keeps}
use pbs_k8s_operator.Reconcile.Returns.{Returns-any}
use pbs_k8s_operator.Reconcile.Brings.{Brings, Brings-bind}
use pbs_k8s_operator.Reconcile.Sequence.{Then-join, Brings-second, Brings-map}
use pbs_k8s_operator.Restore.Status.{hold_phase}
use pbs_k8s_operator.Restore.Steps.{
  Call, Ensured, job_done, job_pending, job_problem, hold_restore, fail_restore, requeue_or_hold,
}
use pbs_k8s_operator.Restore.Phases.{
  next_phase, hold_restore-Brings, fail_restore-Brings, requeue_or_hold-Brings,
}
use pbs_k8s_operator.Restore.Access.{Cluster}
use pbs_k8s_operator.Restore.Pipeline.{unless_done, or_hold}
use pbs_k8s_operator.Restore.Evidence.{
  Reads, Deed, phase_recorded, deeds, AtMostOne, deeds-Sees, kept, failing, IsNext, IsEarned,
  IsOneStep, no_step, nothing,
}
use pbs_k8s_operator.Restore.Ensure.{Step}

module _ {W : Type 0} (cluster : Cluster W) (rs : PbsRestore) (answers : Reads) where
  IsEarned-next_phase :
      (phase : RestorePhase) (e : Ensured)
      → IsEarned cluster rs answers (phase_recorded phase)
      → IsEarned cluster rs answers (phase_recorded (next_phase rs phase e))
  IsEarned-next_phase phase job_done h = h
  IsEarned-next_phase phase job_pending h = h
  IsEarned-next_phase phase (job_problem reason message) h = if_earned (reason == "Failed")
    where
      if_earned :
          (b : Bool)
          → IsEarned cluster rs answers
              (phase_recorded (if b then RestorePhase.failed else hold_phase rs.status.phase))
      if_earned true = failing
      if_earned false = kept

  stopped :
      (phase : RestorePhase) (e : Ensured) (xs : List Deed)
      → AtMostOne (IsNext cluster rs answers) xs
      → IsEarned cluster rs answers (phase_recorded phase)
      → Brings deeds
          (λ ys. IsOneStep cluster rs answers (xs ++ ys))
          (requeue_or_hold cluster.steps rs phase e)
  stopped phase e xs one earned =
      Brings-map _ (λ ys all. Then-join xs ys one all)
        (requeue_or_hold-Brings cluster.steps deeds-Sees (IsEarned cluster rs answers) rs phase e
          (IsEarned-next_phase phase e earned))

  -- The end of a step, and what follows it where it is done.
  pub unless_done-IsOneStep :
      {Q : Type 0} (phase : RestorePhase) (rest : M W Call CtrlResult) (e : Ensured)
      (xs : List Deed)
      → IsEarned cluster rs answers (phase_recorded phase)
      → (Q → Brings deeds (IsOneStep cluster rs answers) rest)
      → Step cluster rs answers Q e xs
      → Brings deeds
          (λ ys. IsOneStep cluster rs answers (xs ++ ys))
          (unless_done cluster rs phase rest e)
  unless_done-IsOneStep phase rest job_done xs earned k (none, q) =
      subst (λ (xs : List Deed). Brings deeds (λ ys. IsOneStep cluster rs answers (xs ++ ys)) rest)
        (sym none) (k q)
  unless_done-IsOneStep phase rest job_pending xs earned k one =
      stopped phase job_pending xs one earned
  unless_done-IsOneStep phase rest (job_problem reason message) xs earned k none =
      stopped phase (job_problem reason message) xs (inl none) earned

  pub alone :
      (xs : List Deed) → AtMostOne (IsNext cluster rs answers) xs → IsOneStep cluster rs answers xs
  alone xs one = subst (IsOneStep cluster rs answers) (append-nil xs) (Then-join xs [] one tt)

  pub phases_only :
      {A : Type 0} (m : M W Call A)
      → Brings deeds (All (IsEarned cluster rs answers)) m
      → Brings deeds (IsOneStep cluster rs answers) m
  phases_only m h = Brings-second m (no_step cluster rs answers) h

  pub hold-IsOneStep :
      (reason message : String) (wait : ℕ)
      → Brings deeds
          (IsOneStep cluster rs answers)
          (hold_restore cluster.steps rs reason message wait)
  hold-IsOneStep reason message wait = phases_only _ (
      hold_restore-Brings cluster.steps deeds-Sees (IsEarned cluster rs answers) rs reason message
        wait kept)

  pub fail-IsOneStep :
      (reason message : String)
      → Brings deeds (IsOneStep cluster rs answers) (fail_restore cluster.steps rs reason message)
  fail-IsOneStep reason message = phases_only _ (
      fail_restore-Brings cluster.steps deeds-Sees (IsEarned cluster rs answers) rs reason message
        failing)

  -- A quiet step, and what follows it.
  pub quietly :
      {A B : Type 0} (m : M W Call A) (k : A → M W Call B)
      → Keeps deeds m
      → ((a : A) → Brings deeds (IsOneStep cluster rs answers) (k a))
      → Brings deeds (IsOneStep cluster rs answers) (m >>= k)
  quietly m k q h = Brings-bind m k q (Returns-any m) (nothing cluster rs answers) λ a _. h a

  pub or_hold-IsOneStep :
      {A : Type 0} (reason : String) (r : Resolved A) (k : A → M W Call CtrlResult)
      → ((a : A) → Brings deeds (IsOneStep cluster rs answers) (k a))
      → Brings deeds (IsOneStep cluster rs answers) (or_hold cluster rs reason r k)
  or_hold-IsOneStep reason (problem p) k h = hold-IsOneStep reason p 60
  or_hold-IsOneStep reason (usable a) k h = h a
