-- ===== src/Restore/Ensure.antt =====
-- What ensuring the Jobs of a restore does.
use mathlib.Core.Path.{subst}
use mathlib.Core.List.{append-nil}
use pbs_k8s_operator.Base.{
  String, List, [], ◌∷◌, ◌++◌, ◌≡◌, refl, sym, ◌∙◌, inl, inr, All, ◌==◌, Bool-cases,
}
use pbs_k8s_operator.Base.Text.{◌+++◌}
use pbs_k8s_operator.Kube.{Job}
use pbs_k8s_operator.Types.{PbsRestore}
use pbs_k8s_operator.RestorePlan.Parse.{ParsedDoc}
use pbs_k8s_operator.Backup.Groups.{Groups, nodes_of}
use pbs_k8s_operator.Backup.Quiet.{first_node-Keeps}
use pbs_k8s_operator.Repo.Creds.{Resolved, usable, problem}
use pbs_k8s_operator.Reconcile.{M, Got, got, not_found, get_failed, pure, on_got}
use pbs_k8s_operator.Reconcile.Effects.{Adds-send, Adds-bind, keeps_rules}
use pbs_k8s_operator.Reconcile.Returns.{Returns-pure, Returns-bind, Returns-on_made}
use pbs_k8s_operator.Reconcile.Sequence.{
  Gives, Gives-pure, Gives-raise, Gives-if, Gives-Adds, Gives-known, Gives-shift, Gives-Keeps,
  Gives-map, Gives-chain,
}
use pbs_k8s_operator.Restore.Status.{job_condition, known_job, recorded_job_state}
use pbs_k8s_operator.Restore.Steps.{
  Call, create_job, Ensured, job_done, job_pending, job_problem, pipeline_job, found_job,
  absent_job, ensure_job,
}
use pbs_k8s_operator.Restore.Access.{Cluster}
use pbs_k8s_operator.Restore.Pipeline.{
  volume_groups, pipeline_name, volume_job, when_done, ensure_node_jobs, ensure_grouped,
  ensure_volume_jobs,
}
use pbs_k8s_operator.Restore.Evidence.{
  Reads, IsManifest, Deed, deeds, AtMostOne, complete, reaped, volume, IsDone, claims, IsDoneOn,
  VolumesDone, IsPrepared, created, IsFresh, IsNext, no_step,
}

module _ {W : Type 0} (cluster : Cluster W) (rs : PbsRestore) (answers : Reads) where
  -- What a step of the pipeline adds to the deeds, by its outcome; `Q` holds where it is done.
  abbrev pub Step : Type 0 → Ensured → List Deed → Type 0
  Step Q job_done xs = (xs ≡ []) × Q
  Step Q job_pending xs = AtMostOne (IsNext cluster rs answers) xs
  Step Q (job_problem reason message) xs = xs ≡ []

  abbrev pub Stepping : (Q : Type 0) → M W Call Ensured → Type 0
  Stepping Q m = Gives deeds (Step Q) (AtMostOne (IsNext cluster rs answers)) m

  abbrev job_of : String → Job → Job
  job_of step built = pipeline_job cluster.steps rs (pipeline_name cluster rs step) built

  module _ (step : String) (built : Job)
      (next : IsFresh cluster rs answers step
        → IsNext cluster rs answers (created cluster rs answers step built)) where
    abbrev name : String
    name = pipeline_name cluster rs step

    absent_job-Step :
        answers.job name ≡ not_found
        → Stepping (IsDone cluster rs answers name) (absent_job cluster.steps rs name built)
    unfolding absent_job
    absent_job-Step gone =
        Gives-if (known_job rs name) _ _
          (λ known.
            Gives-if (recorded_job_state rs name == "complete") _ _
              (λ was. Gives-pure job_done (refl, reaped gone known was)) (λ _. Gives-pure _ refl))
          λ unknown.
            Gives-Adds {Q = λ (e : Ensured). e ≡ job_pending}
              (created cluster rs answers step built ∷ []) _
              (λ e q.
                subst
                  (λ (e : Ensured).
                    Step (IsDone cluster rs answers name) e
                      (created cluster rs answers step built ∷ []))
                  (sym q) (inr (created cluster rs answers step built, refl, next (gone, unknown))))
              (inr (created cluster rs answers step built, refl, next (gone, unknown)))
              (Adds-bind _ _ (created cluster rs answers step built ∷ [])
                (Adds-send (create_job (job_of step built))
                  (cluster.steps.create_job (job_of step built)))
                (λ r. search keeps_rules))
              (Returns-bind _ _
                λ r. Returns-on_made r _ _ (Returns-pure _ refl) (Returns-pure _ refl))

    found_job-Step :
        (job : Job)
        → answers.job name ≡ got job
        → Step (IsDone cluster rs answers name) (found_job cluster.steps name job) []
    unfolding found_job
    found_job-Step job there = elim (Bool-cases (job_condition job "Failed")) [
      | inl e ↦ rw e refl
      | inr e ↦ elim (Bool-cases (job_condition job "Complete")) [
        | inl e' ↦ rw (e, e') (refl, complete job there e')
        | inr e' ↦ rw (e, e') (inl refl)
      ]
    ]

    read_job-Step :
        (r : Got Job)
        → answers.job name ≡ r
        → Stepping (IsDone cluster rs answers name) (
            on_got r
              (absent_job cluster.steps rs name built)
              λ job. pure (found_job cluster.steps name job))
    unfolding on_got
    read_job-Step (got job) e = Gives-pure _ (found_job-Step job e)
    read_job-Step not_found e = absent_job-Step e
    read_job-Step (get_failed x) e = Gives-raise x (no_step cluster rs answers)

    pub ensure_job-Step :
        ((w : W) → cluster.steps.get_job rs.spec.target_namespace name w ≡ (answers.job name, w))
        → Stepping (IsDone cluster rs answers name) (ensure_job cluster.steps rs name built)
    unfolding ensure_job
    ensure_job-Step same =
        Gives-known (cluster.steps.get_job rs.spec.target_namespace name) _ (answers.job name) same
          (read_job-Step (answers.job name) refl)

  -- While a reconcile runs, the API server answers a read of a Job by its name.
  module _
      (stable : (name : String) (w : W)
        → cluster.steps.get_job rs.spec.target_namespace name w ≡ (answers.job name, w)) where
    when_done-Step :
        {P Q : Type 0} (rest : M W Call Ensured) (e : Ensured) (xs : List Deed)
        → (P → Stepping Q rest)
        → Step P e xs
        → Gives deeds
            (λ d zs. Step Q d (xs ++ zs))
            (λ zs. AtMostOne (IsNext cluster rs answers) (xs ++ zs))
            (when_done cluster rest e)
    when_done-Step {Q = Q} rest job_done xs k (none, p) =
        Gives-shift {R = Step Q} {E = AtMostOne (IsNext cluster rs answers)} rest xs none (k p)
    when_done-Step rest job_pending xs k one =
        Gives-pure job_pending
          (subst (AtMostOne (IsNext cluster rs answers)) (sym (append-nil xs)) one)
    when_done-Step rest (job_problem reason message) xs k none =
        Gives-pure (job_problem reason message) (append-nil xs ∙ none)

    Step-map : {P Q : Type 0} (e : Ensured) (xs : List Deed) → (P → Q) → Step P e xs → Step Q e xs
    Step-map job_done xs h (none, p) = (none, h p)
    Step-map job_pending xs h one = one
    Step-map (job_problem reason message) xs h none = none

    ensure_node_jobs-Step :
        (prepared : IsPrepared cluster rs answers) (sec : String) (groups : Groups)
        (nodes : List String)
        → Stepping
            (All (IsDoneOn cluster rs answers) nodes)
            (ensure_node_jobs cluster rs sec groups nodes)
    unfolding ensure_node_jobs
    ensure_node_jobs-Step prepared sec groups [] = Gives-pure job_done (refl, tt)
    ensure_node_jobs-Step prepared sec groups (node ∷ nodes) =
        Gives-chain _ _
          (ensure_job-Step ("vol-" +++ node) (volume_job cluster rs sec groups node)
            (volume sec groups node prepared) (stable (pipeline_name cluster rs ("vol-" +++ node))))
          (λ ys one. one)
          λ e xs st.
            when_done-Step _ e xs
              (λ done.
                Gives-map _
                  (λ d ys.
                    Step-map d ys
                      (λ (later : All (IsDoneOn cluster rs answers) nodes). (done, later)))
                  (ensure_node_jobs-Step prepared sec groups nodes))
              st

    ensure_grouped-Step :
        (prepared : IsPrepared cluster rs answers) (sec : String) (docs : List ParsedDoc)
        (manifest : IsManifest cluster rs answers docs) (fallback : String) (r : Resolved Groups)
        → volume_groups docs fallback (claims cluster rs answers docs) [] ≡ r
        → Stepping (VolumesDone cluster rs answers) (ensure_grouped cluster rs sec r)
    ensure_grouped-Step prepared sec docs manifest fallback (problem p) e = Gives-pure _ refl
    ensure_grouped-Step prepared sec docs manifest fallback (usable groups) e =
        Gives-map _
          (λ d ys. Step-map d ys λ (all : All (IsDoneOn cluster rs answers) (nodes_of groups)).
            record {
              docs = docs;
              manifest = manifest;
              fallback = fallback;
              groups = groups;
              placed = e;
              done = all;
            })
          (ensure_node_jobs-Step prepared sec groups (nodes_of groups))

    pub ensure_volume_jobs-Step :
        (prepared : IsPrepared cluster rs answers) (sec : String) (docs : List ParsedDoc)
        (manifest : IsManifest cluster rs answers docs)
        → Stepping
            (VolumesDone cluster rs answers)
            (ensure_volume_jobs cluster rs sec docs (claims cluster rs answers docs))
    unfolding ensure_volume_jobs
    ensure_volume_jobs-Step prepared sec docs manifest =
        Gives-Keeps _ _ (first_node-Keeps cluster.list_nodes) (no_step cluster rs answers)
          λ fallback.
            ensure_grouped-Step prepared sec docs manifest fallback
              (volume_groups docs fallback (claims cluster rs answers docs) []) refl
