-- ===== src/Backup/Order.antt =====
-- The order of what a reconcile of a backup does.
use pbs_k8s_operator.Base.{
  ℕ, String, false, ◌&&◌, Option, none, some, List, [], ◌∷◌, ◌++◌, ◌≡◌, refl, ap, ◌∙◌, All,
  if◌then◌else◌,
}
use pbs_k8s_operator.Base.Text.{is_empty}
use pbs_k8s_operator.Kube.{Pod, PersistentVolumeClaim}
use pbs_k8s_operator.Types.{PbsBackup, PbsRepo, running, completed, failed, is_terminal}
use pbs_k8s_operator.Repo.Creds.{Resolved, usable, problem}
use pbs_k8s_operator.RepoSecret.CopyLaws.{ensure_repo_secret-Keeps}
use pbs_k8s_operator.Reconcile.{M, Run, pure, ◌>>=◌, on_got, got, CtrlResult, no_requeue}
use pbs_k8s_operator.Reconcile.Effects.{view, Keeps, Keeps-pure, keeps_rules}
use pbs_k8s_operator.Reconcile.Returns.{Returns-any}
use pbs_k8s_operator.Reconcile.Brings.{
  Brings, Brings-Keeps, Brings-ask, Brings-if, Brings-on_got, Brings-bind,
}
use pbs_k8s_operator.Reconcile.Sequence.{Then, Then-join, Brings-step, Brings-second, ask-known}
use pbs_k8s_operator.Backup.Results.{Call, secret, PlacedJob}
use pbs_k8s_operator.Backup.Outcome.{held_phase, hold, fail_backup}
use pbs_k8s_operator.Backup.Cluster.{Cluster}
use pbs_k8s_operator.Backup.Groups.{Groups, nodes_of}
use pbs_k8s_operator.Backup.Launch.{HookOutcome, hooks_done, hook_problem}
use pbs_k8s_operator.Backup.Reconciler.{
  no_elements, or_hold, settle_failed, settle, all_complete, first_failed, run_jobs, after_hooks,
  run_hooked, run_placed, run_selected, run_ready, gate, reconcile,
}
use pbs_k8s_operator.Backup.Phases.{
  hold-Brings, run_backup-Brings, fail_backup-Brings, complete_backup-Brings,
}
use pbs_k8s_operator.Backup.Quiet.{select_pvcs-Keeps, stage-Keeps, place-Keeps}
use pbs_k8s_operator.Backup.Deeds.{
  Deed, deeds, deeds-Sees, rank-final, rank-held_phase, rank-running, forward, IsLaunch, IsAdvance,
  IsOrderly,
}
use pbs_k8s_operator.Backup.LaunchLaws.{launch-IsLaunch, run_pre_hooks-IsHookRun}

module _ {W : Type 0} (cluster : Cluster W) (b : PbsBackup) where
  module _ (going : is_terminal b.status.phase ≡ false) where
    hold-IsAdvance :
        (reason message : String) (wait : ℕ)
        → Brings deeds (All (IsAdvance cluster b)) (hold cluster.ends b reason message wait)
    hold-IsAdvance reason message wait =
        hold-Brings cluster.ends deeds-Sees (IsAdvance cluster b) b reason message wait
          (forward (held_phase b.status.phase) (rank-held_phase b.status.phase going))

    fail-IsAdvance :
        (reason message : String) (placed : List PlacedJob)
        → Brings deeds
            (All (IsAdvance cluster b))
            (fail_backup cluster.ends b reason message placed)
    fail-IsAdvance reason message placed =
        fail_backup-Brings cluster.ends deeds-Sees (IsAdvance cluster b) b reason message placed
          (forward failed (rank-final b.status.phase))

    settle_failed-IsAdvance :
        (placed : List PlacedJob) (o : Option PlacedJob)
        → Brings deeds (All (IsAdvance cluster b)) (settle_failed cluster b placed o)
    settle_failed-IsAdvance placed (some pj) = fail-IsAdvance "Failed" _ placed
    settle_failed-IsAdvance placed none =
        Brings-if (all_complete placed) _ _
          (λ _.
            complete_backup-Brings cluster.ends deeds-Sees (IsAdvance cluster b) b placed
              (forward completed (rank-final b.status.phase))
              (forward failed (rank-final b.status.phase)))
          (λ _.
            run_backup-Brings cluster.ends deeds-Sees (IsAdvance cluster b) b placed
              (forward running (rank-running b.status.phase going)))

    settle-IsAdvance :
        (placed : List PlacedJob)
        → Brings deeds (All (IsAdvance cluster b)) (settle cluster b placed)
    unfolding settle
    settle-IsAdvance placed = settle_failed-IsAdvance placed (first_failed placed)

  -- The Jobs, then the phases.
  abbrev IsJobsFirst : List Deed → Type 0
  IsJobsFirst = Then (All (IsLaunch cluster b)) (All (IsAdvance cluster b))

  no_jobs : IsJobsFirst []
  no_jobs = Then-join [] [] tt tt

  no_deeds : IsOrderly cluster b []
  no_deeds = Then-join [] [] tt no_jobs

  phases_only :
      {A : Type 0} (m : M W Call A)
      → Brings deeds (All (IsAdvance cluster b)) m
      → Brings deeds (IsOrderly cluster b) m
  phases_only m h = Brings-second m tt (Brings-second m tt h)

  module _ (going : is_terminal b.status.phase ≡ false) where
    or_hold-IsAdvance :
        {A : Type 0} (reason : String) (r : Resolved A) (k : A → M W Call CtrlResult)
        → ((a : A) → Brings deeds (All (IsAdvance cluster b)) (k a))
        → Brings deeds (All (IsAdvance cluster b)) (or_hold cluster b reason r k)
    or_hold-IsAdvance reason (problem p) k h = hold-IsAdvance going reason p 60
    or_hold-IsAdvance reason (usable a) k h = h a

    or_hold-IsOrderly :
        {A : Type 0} (reason : String) (r : Resolved A) (k : A → M W Call CtrlResult)
        → ((a : A) → Brings deeds (IsOrderly cluster b) (k a))
        → Brings deeds (IsOrderly cluster b) (or_hold cluster b reason r k)
    or_hold-IsOrderly reason (problem p) k h = phases_only _ (hold-IsAdvance going reason p 60)
    or_hold-IsOrderly reason (usable a) k h = h a

    run_jobs-IsJobsFirst :
        (sec staging : String) (groups : Groups)
        → Brings deeds IsJobsFirst (run_jobs cluster b sec staging groups)
    unfolding run_jobs
    run_jobs-IsJobsFirst sec staging groups =
        Brings-step _ _ Then-join tt
          (launch-IsLaunch cluster b sec staging groups (nodes_of groups))
          λ r. or_hold-IsAdvance "JobDeleted" r _ (settle-IsAdvance going)

    after_hooks-IsJobsFirst :
        (r : HookOutcome) (k : M W Call CtrlResult)
        → Brings deeds IsJobsFirst k
        → Brings deeds IsJobsFirst (after_hooks cluster b r k)
    after_hooks-IsJobsFirst (hook_problem reason p) k h =
        Brings-second _ tt (fail-IsAdvance going reason p [])
    after_hooks-IsJobsFirst hooks_done k h = h

    run_hooked-IsOrderly :
        (sec staging : String) (pvcs : List PersistentVolumeClaim) (pods : List Pod)
        (groups : Groups)
        → Brings deeds (IsOrderly cluster b) (run_hooked cluster b sec staging pvcs pods groups)
    unfolding run_hooked
    run_hooked-IsOrderly sec staging pvcs pods groups =
        Brings-if (no_elements b.status.jobs) _ _
          (λ first.
            Brings-step _ _ Then-join no_jobs (run_pre_hooks-IsHookRun cluster b first pvcs pods)
              λ r. after_hooks-IsJobsFirst r _ (run_jobs-IsJobsFirst sec staging groups))
          λ _. Brings-second _ tt (run_jobs-IsJobsFirst sec staging groups)

    -- A quiet step, and what follows it.
    quietly :
        {A B : Type 0} (m : M W Call A) (k : A → M W Call B)
        → Keeps deeds m
        → ((a : A) → Brings deeds (IsOrderly cluster b) (k a))
        → Brings deeds (IsOrderly cluster b) (m >>= k)
    quietly m k q h = Brings-bind m k q (Returns-any m) no_deeds λ a _. h a

    run_placed-IsOrderly :
        (sec : String) (pvcs : List PersistentVolumeClaim) (staging : String)
        → Brings deeds (IsOrderly cluster b) (run_placed cluster b sec pvcs staging)
    unfolding run_placed
    run_placed-IsOrderly sec pvcs staging =
        Brings-if (no_elements pvcs && is_empty staging) _ _
          (λ _. phases_only _ (hold-IsAdvance going "NoPVCsSelected" _ 300))
          λ _. quietly _ _ (search keeps_rules) λ r. quietly _ _ (search keeps_rules) λ pods.
            quietly _ _ (place-Keeps cluster deeds pods pvcs) λ groups.
              or_hold-IsOrderly "PlacementFailed" groups _
                λ gs. run_hooked-IsOrderly sec staging pvcs pods gs

    run_selected-IsOrderly :
        (sec : String) → Brings deeds (IsOrderly cluster b) (run_selected cluster b sec)
    unfolding run_selected
    run_selected-IsOrderly sec = quietly _ _ (select_pvcs-Keeps cluster deeds b) λ r.
        or_hold-IsOrderly "PlacementFailed" r _ λ pvcs.
          quietly _ _ (stage-Keeps cluster deeds (λ cm. refl) (λ cm. refl) b)
            λ staging. run_placed-IsOrderly sec pvcs staging

    run_ready-IsOrderly :
        (repo : PbsRepo) → Brings deeds (IsOrderly cluster b) (run_ready cluster b repo)
    unfolding run_ready
    run_ready-IsOrderly repo =
        quietly _ _
          (ensure_repo_secret-Keeps cluster.secrets secret deeds (λ c. refl) repo b.meta.namespace
            (b.meta.uid ∷ []))
          λ r. or_hold-IsOrderly "SecretCopyFailed" r _ run_selected-IsOrderly

    gate-IsOrderly : Brings deeds (IsOrderly cluster b) (gate cluster b)
    unfolding gate
    gate-IsOrderly = Brings-ask _ _ λ r.
        Brings-on_got r _ _ no_deeds (phases_only _ (hold-IsAdvance going "RepoNotReady" _ 60))
          λ repo.
            Brings-if
              (cluster.ends.conditions.is_status_condition_true repo.status.conditions "Ready") _ _
              (λ _. run_ready-IsOrderly repo)
              (λ _. phases_only _ (hold-IsAdvance going "RepoNotReady" _ 60))

  found-IsOrderly :
      Brings deeds
        (IsOrderly cluster b)
        (if is_terminal b.status.phase then pure no_requeue else gate cluster b)
  found-IsOrderly =
      Brings-if (is_terminal b.status.phase) _ _ (λ _. Brings-Keeps _ no_deeds (Keeps-pure _))
        gate-IsOrderly

  -- A reconcile that reads the backup runs hooks, then creates Jobs, then records phases, in this
  -- order and each perhaps not at all. It runs a hook just where the status of the backup has no
  -- Jobs, creates just Jobs of its nodes that the status does not know, and records just phases
  -- that are not behind the backup's; and this whatever the API server, the pods and the clock
  -- answer.
  pub reconcile-IsOrderly :
      (s : Run W Call) (w : W)
      → cluster.get_backup s.world ≡ (got b, w)
      → (xs : List Deed) × (view deeds (reconcile cluster s).1.log ≡ view deeds s.log ++ xs)
        × IsOrderly cluster b xs
  unfolding reconcile on_got
  reconcile-IsOrderly s w e =
      let (xs, e', o) = (found-IsOrderly.at (record s { world = w })) in
      (xs, ap (λ r. view deeds r.1.log) (ask-known cluster.get_backup _ s (got b) w e) ∙ e', o)
