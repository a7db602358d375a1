-- ===== src/Restore/Order.antt =====
-- The order of what a reconcile of a restore does.
use mathlib.Core.Path.{subst}
use pbs_k8s_operator.Base.{String, List, [], ◌∷◌, ◌++◌, ◌≡◌, refl, ap, ◌∙◌, if◌then◌else◌}
use pbs_k8s_operator.Base.Text.{is_empty, sort_strings, sort_by}
use pbs_k8s_operator.Kube.{Job, ConfigMap}
use pbs_k8s_operator.Types.{PbsRestore, PbsRepo, RestorePhase}
use pbs_k8s_operator.RestorePlan.Parse.{ParsedDoc, Result, ok, err}
use pbs_k8s_operator.Backup.Groups.{nodes_of}
use pbs_k8s_operator.RepoSecret.CopyLaws.{ensure_repo_secret-Keeps}
use pbs_k8s_operator.Reconcile.{
  M, Run, Got, got, not_found, get_failed, pure, on_got, ◌>>=◌, CtrlResult, no_requeue,
}
use pbs_k8s_operator.Reconcile.Effects.{view, Keeps-raise, Keeps-pure}
use pbs_k8s_operator.Reconcile.Brings.{Brings, Brings-Keeps, Brings-ask, Brings-if, Brings-on_got}
use pbs_k8s_operator.Reconcile.Sequence.{Gives-bind, Brings-known, ask-known}
use pbs_k8s_operator.Restore.Status.{validate_spec}
use pbs_k8s_operator.Restore.Steps.{Call, secret, ensure_job}
use pbs_k8s_operator.Restore.Phases.{complete_restore-Brings}
use pbs_k8s_operator.Restore.Access.{Cluster}
use pbs_k8s_operator.Restore.Pipeline.{
  volume_groups, pipeline_name, fetch_job, apply_job, ensure_volume_jobs, unless_done, run_workload,
  run_claims, run_parsed, run_volumes, run_pre, run_staged, run_fetch, run_ready, gate, run_restore,
  reconcile, api_name, is_over,
}
use pbs_k8s_operator.Restore.Evidence.{
  Reads, IsManifest, Deed, phase_recorded, deeds, deeds-Sees, fetch, pre, workload, staging,
  restoring, applying, completing, IsDone, claims, VolumesDone, IsFetched, IsPrepared, created,
  IsFresh, IsNext, IsEarned, IsOneStep, nothing,
}
use pbs_k8s_operator.Restore.Ensure.{Stepping, ensure_job-Step, ensure_volume_jobs-Step}
use pbs_k8s_operator.Restore.Quiet.{
  adopt_config_map-Keeps, ensure_target_namespace-Keeps, ensure_job_rbac-Keeps,
}
use pbs_k8s_operator.Restore.OneStep.{
  alone, fail-IsOneStep, hold-IsOneStep, or_hold-IsOneStep, phases_only, quietly,
  unless_done-IsOneStep,
}

module _ {W : Type 0} (cluster : Cluster W) (rs : PbsRestore) (answers : Reads) where
  -- While a reconcile runs, the API server answers a read of a Job by its name, and a read of the
  -- manifest always in the same way.
  module _
      (stable : (name : String) (w : W)
        → cluster.steps.get_job rs.spec.target_namespace name w ≡ (answers.job name, w))
      (stable_manifest : (w : W)
        → cluster.get_config_map rs.spec.target_namespace (api_name rs) w
          ≡ (answers.manifest, w)) where
    -- A step of the pipeline and what follows it.
    next_step :
        (step : String) (built : Job) (phase : RestorePhase) (rest : M W Call CtrlResult)
        → (IsFresh cluster rs answers step
            → IsNext cluster rs answers (created cluster rs answers step built))
        → IsEarned cluster rs answers (phase_recorded phase)
        → (IsDone cluster rs answers (pipeline_name cluster rs step)
            → Brings deeds (IsOneStep cluster rs answers) rest)
        → Brings deeds (IsOneStep cluster rs answers) (
            ensure_job cluster.steps rs (pipeline_name cluster rs step) built
            >>= unless_done cluster rs phase rest)
    next_step step built phase rest next earned k =
        Gives-bind _ _
          (ensure_job-Step cluster rs answers step built next
            (stable (pipeline_name cluster rs step)))
          (alone cluster rs answers)
          λ e xs st. unless_done-IsOneStep cluster rs answers phase rest e xs earned k st

    run_workload-IsOneStep :
        (prepared : IsPrepared cluster rs answers) (volumes : VolumesDone cluster rs answers)
        (sec : String)
        → Brings deeds (IsOneStep cluster rs answers) (run_workload cluster rs sec)
    unfolding run_workload
    run_workload-IsOneStep prepared volumes sec =
        next_step "api-workload" (apply_job cluster rs sec "workload")
          RestorePhase.applying_workloads _ (workload sec prepared volumes)
          (applying prepared volumes)
          λ done. phases_only cluster rs answers _ (
            complete_restore-Brings cluster.steps deeds-Sees (IsEarned cluster rs answers) rs
              (completing prepared volumes done))

    run_claims-IsOneStep :
        (prepared : IsPrepared cluster rs answers) (sec : String) (docs : List ParsedDoc)
        (manifest : IsManifest cluster rs answers docs) (pvcs : List String)
        → claims cluster rs answers docs ≡ pvcs
        → Brings deeds (IsOneStep cluster rs answers) (run_claims cluster rs sec docs pvcs)
    unfolding volume_groups nodes_of sort_strings sort_by
    run_claims-IsOneStep prepared sec docs manifest [] e =
        run_workload-IsOneStep prepared
          (record {
            docs = docs;
            manifest = manifest;
            fallback = "";
            groups = [];
            placed = ap (λ l. volume_groups docs "" l []) e;
            done = tt;
          })
          sec
    run_claims-IsOneStep prepared sec docs manifest (pvc ∷ pvcs) e =
        Gives-bind _ _
          (subst
            (λ l.
              Stepping cluster rs answers (VolumesDone cluster rs answers)
                (ensure_volume_jobs cluster rs sec docs l))
            e (ensure_volume_jobs-Step cluster rs answers stable prepared sec docs manifest))
          (alone cluster rs answers)
          λ d xs st.
            unless_done-IsOneStep cluster rs answers RestorePhase.restoring_volumes _ d xs
              (restoring prepared) (λ volumes. run_workload-IsOneStep prepared volumes sec) st

    run_parsed-IsOneStep :
        (prepared : IsPrepared cluster rs answers) (sec : String) (r : Result (List ParsedDoc))
        → ((docs : List ParsedDoc) → r ≡ ok docs → IsManifest cluster rs answers docs)
        → Brings deeds (IsOneStep cluster rs answers) (run_parsed cluster rs sec r)
    run_parsed-IsOneStep prepared sec (err e) m = fail-IsOneStep cluster rs answers "InvalidSpec" _
    run_parsed-IsOneStep prepared sec (ok docs) m =
        run_claims-IsOneStep prepared sec docs (m docs refl) (claims cluster rs answers docs) refl

    run_volumes-IsOneStep :
        (prepared : IsPrepared cluster rs answers) (sec : String) (cm : ConfigMap)
        → answers.manifest ≡ got cm
        → Brings deeds (IsOneStep cluster rs answers) (run_volumes cluster rs sec cm)
    unfolding run_volumes
    run_volumes-IsOneStep prepared sec cm there =
        run_parsed-IsOneStep prepared sec _ λ docs e. record { cm = cm; there = there; parsed = e }

    run_pre-IsOneStep :
        (fetched : IsFetched cluster rs answers) (sec : String) (cm : ConfigMap)
        → answers.manifest ≡ got cm
        → Brings deeds (IsOneStep cluster rs answers) (run_pre cluster rs sec cm)
    unfolding run_pre
    run_pre-IsOneStep fetched sec cm there =
        quietly cluster rs answers _ _ (adopt_config_map-Keeps cluster rs cm) λ u.
          next_step "api-pre" (apply_job cluster rs sec "pre") RestorePhase.staging_api _
            (pre sec fetched) staging λ done. run_volumes-IsOneStep (fetched, done) sec cm there

    on_manifest-IsOneStep :
        (fetched : IsFetched cluster rs answers) (sec : String) (r : Got ConfigMap)
        (hold : M W Call CtrlResult)
        → answers.manifest ≡ r
        → Brings deeds (IsOneStep cluster rs answers) hold
        → Brings deeds (IsOneStep cluster rs answers) (on_got r hold (run_pre cluster rs sec))
    unfolding on_got
    on_manifest-IsOneStep fetched sec (got cm) hold e h = run_pre-IsOneStep fetched sec cm e
    on_manifest-IsOneStep fetched sec not_found hold e h = h
    on_manifest-IsOneStep fetched sec (get_failed x) hold e h =
        Brings-Keeps _ (nothing cluster rs answers) (Keeps-raise x)

    run_staged-IsOneStep :
        (fetched : IsFetched cluster rs answers) (sec : String)
        → Brings deeds (IsOneStep cluster rs answers) (run_staged cluster rs sec)
    unfolding run_staged
    run_staged-IsOneStep fetched sec =
        Brings-known (cluster.get_config_map rs.spec.target_namespace (api_name rs)) _
          answers.manifest stable_manifest
          (on_manifest-IsOneStep fetched sec answers.manifest _ refl
            (hold-IsOneStep cluster rs answers "ApiManifestMissing" _ 60))

    run_fetch-IsOneStep :
        (sec : String) → Brings deeds (IsOneStep cluster rs answers) (run_fetch cluster rs sec)
    unfolding run_fetch
    run_fetch-IsOneStep sec =
        next_step "api-fetch" (fetch_job cluster rs sec) RestorePhase.staging_api _ (fetch sec)
          staging λ done. run_staged-IsOneStep done sec

    run_ready-IsOneStep :
        (repo : PbsRepo) → Brings deeds (IsOneStep cluster rs answers) (run_ready cluster rs repo)
    unfolding run_ready
    run_ready-IsOneStep repo =
        quietly cluster rs answers _ _ (ensure_target_namespace-Keeps cluster rs) λ ns.
          or_hold-IsOneStep cluster rs answers "TargetNamespaceTerminating" ns _ λ u.
            quietly cluster rs answers _ _
              (ensure_repo_secret-Keeps cluster.secrets secret deeds (λ c. refl) repo
                rs.spec.target_namespace [])
              λ r. or_hold-IsOneStep cluster rs answers "SecretCopyFailed" r _ λ sec.
                quietly cluster rs answers _ _ (ensure_job_rbac-Keeps cluster rs)
                  λ v. run_fetch-IsOneStep sec

    gate-IsOneStep : Brings deeds (IsOneStep cluster rs answers) (gate cluster rs)
    unfolding gate
    gate-IsOneStep = Brings-ask _ _ λ r.
        Brings-on_got r _ _ (nothing cluster rs answers)
          (hold-IsOneStep cluster rs answers "RepoNotReady" _ 60)
          λ repo.
            Brings-if
              (cluster.steps.conditions.is_status_condition_true repo.status.conditions "Ready") _ _
              (λ _. run_ready-IsOneStep repo)
              (λ _. hold-IsOneStep cluster rs answers "RepoNotReady" _ 60)

    found-IsOneStep :
        Brings deeds
          (IsOneStep cluster rs answers)
          (if is_over rs.status.phase then pure no_requeue else run_restore cluster rs)
    unfolding run_restore
    found-IsOneStep =
        Brings-if (is_over rs.status.phase) _ _
          (λ _. Brings-Keeps _ (nothing cluster rs answers) (Keeps-pure _))
          λ _.
            Brings-if (is_empty (validate_spec rs)) _ _ (λ _. gate-IsOneStep)
              (λ _. fail-IsOneStep cluster rs answers "InvalidSpec" _)

    -- While the API server answers reads of a Job and of the manifest in one way, a reconcile that
    -- reads a restore creates at most one Job, and then records phases. The Job is not there and the
    -- restore's status does not know it, and it is the next of the pipeline: the pre-apply only where
    -- the fetch is done, a volume Job only where the pre-apply is done too, and the workload only
    -- where the volume Jobs of all the nodes of the manifest's claims are. A phase is recorded only
    -- where the Jobs before it are done, Completed only where all are.
    pub restore-IsOneStep :
        (s : Run W Call) (w : W)
        → cluster.get_restore s.world ≡ (got rs, w)
        → (xs : List Deed) × (view deeds (reconcile cluster s).1.log ≡ view deeds s.log ++ xs)
          × IsOneStep cluster rs answers xs
    unfolding reconcile on_got
    restore-IsOneStep s w e =
        let (xs, e', o) = (found-IsOneStep.at (record s { world = w })) in
        (xs, ap (λ r. view deeds r.1.log) (ask-known cluster.get_restore _ s (got rs) w e) ∙ e', o)
