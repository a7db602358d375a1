-- ===== src/Restore/Laws.antt =====
-- Which Jobs a restore creates.
use pbs_k8s_operator.Base.{String, false, List, [], ◌∷◌, ◌≡◌, refl, ◌∙◌, eq_iff, arith}
use pbs_k8s_operator.Kube.{Job}
use pbs_k8s_operator.Types.{PbsRestore}
use pbs_k8s_operator.Reconcile.Effects.{Adds-send, Adds-bind, keeps_rules}
use pbs_k8s_operator.Reconcile.Brings.{
  Brings, Brings-Adds, Brings-Keeps, Brings-asked, Brings-if, Brings-on_got_of,
}
use pbs_k8s_operator.Reconcile.{not_found}
use pbs_k8s_operator.Reconcile.Returns.{From}
use pbs_k8s_operator.Restore.Status.{known_job}
use pbs_k8s_operator.Restore.Steps.{Call, create_job, Env, pipeline_job, absent_job, ensure_job}

-- The Jobs that the requests of a log create.
abbrev pub created_jobs : Call → List Job
created_jobs (create_job j) = j ∷ []
created_jobs _ = []

module _ {W : Type 0} (env : Env W) where
  -- The Job that the controller makes of a built one: under its own name, in the restore's target
  -- namespace if the built one is, with the same pod, and owned by the restore in its namespace.
  pub record IsOwn (rs : PbsRestore) (name : String) (built job : Job) : Type 0 where
    pub named : job.meta.name ≡ name
    pub placed : job.meta.namespace ≡ built.meta.namespace
    pub pod : job.pod ≡ built.pod
    pub owned : built.meta.namespace ≡ rs.meta.namespace → job.meta.owners ≡ rs.meta.uid ∷ []

  pipeline_job-IsOwn :
      (rs : PbsRestore) (name : String) (built : Job)
      → IsOwn rs name built (pipeline_job env rs name built)
  unfolding pipeline_job
  pipeline_job-IsOwn rs name built = record {
    named = refl;
    placed = refl;
    pod = refl;
    owned = λ e. ground (arith, eq_iff built.meta.namespace rs.meta.namespace);
  }

  -- The Jobs that `ensureJob` may create: none, or one that the status does not know, where the API
  -- server has none of the name.
  pub data Creation (rs : PbsRestore) (name : String) (built : Job) : List Job → Type 0 where
    nothing : Creation rs name built []
    unknown :
        (job : Job)
        → known_job rs name ≡ false
        → From (env.get_job rs.spec.target_namespace name) not_found
        → IsOwn rs name built job
        → Creation rs name built (job ∷ [])

  absent_job-Brings :
      (rs : PbsRestore) (name : String) (built : Job)
      → From (env.get_job rs.spec.target_namespace name) not_found
      → Brings created_jobs (Creation rs name built) (absent_job env rs name built)
  unfolding absent_job
  absent_job-Brings rs name built gone =
      Brings-if (known_job rs name) _ _ (λ _. Brings-Keeps _ nothing (search keeps_rules))
        λ fresh.
          let job = pipeline_job env rs name built in
          Brings-Adds (job ∷ []) _ (unknown job fresh gone (pipeline_job-IsOwn rs name built)) (
            Adds-bind _ _ (job ∷ []) (Adds-send (create_job job) (env.create_job job))
              (λ r. search keeps_rules))

  -- Whatever the API server answers, ensuring a Job of a restore creates nothing, or one Job where the
  -- API server has none of its name and the status of the restore does not know it; the Job has that
  -- name, the pod and the namespace of the built one, and the restore as its owner in its namespace.
  pub ensure_job-Creation :
      (rs : PbsRestore) (name : String) (built : Job)
      → Brings created_jobs (Creation rs name built) (ensure_job env rs name built)
  unfolding ensure_job
  ensure_job-Creation rs name built =
      Brings-asked (env.get_job rs.spec.target_namespace name) _ λ r from.
        Brings-on_got_of r r _ _ refl nothing
          (λ gone. absent_job-Brings rs name built (from.0, from.1 ∙ gone))
          λ job is. Brings-Keeps _ nothing (search keeps_rules)
