-- ===== src/Restore/Evidence.antt =====
-- What a reconcile of a restore does, by the Jobs that are done, while the API server answers a read
-- of a Job in one way.
use pbs_k8s_operator.Base.{String, true, false, List, [], ◌∷◌, ◌≡◌, refl, ◌⊎◌, inl, All, ◌==◌}
use pbs_k8s_operator.Base.Text.{◌+++◌}
use pbs_k8s_operator.Kube.{Job, ConfigMap, value_at}
use pbs_k8s_operator.Types.{PbsRestore, RestorePhase}
use pbs_k8s_operator.RestorePlan.Parse.{ParsedDoc, ok, parse_api_manifests}
use pbs_k8s_operator.RestorePlan.Buckets.{bucket_docs, pvcs_from_docs}
use pbs_k8s_operator.Backup.Groups.{Groups, nodes_of}
use pbs_k8s_operator.Repo.Creds.{usable}
use pbs_k8s_operator.Reconcile.{Got, got, not_found}
use pbs_k8s_operator.Reconcile.Sequence.{Then, Then-join}
use pbs_k8s_operator.Restore.Status.{job_condition, known_job, recorded_job_state, hold_phase}
use pbs_k8s_operator.Restore.Steps.{Call, create_job, patch_status, pipeline_job}
use pbs_k8s_operator.Restore.Phases.{Sees}
use pbs_k8s_operator.Restore.Access.{Cluster}
use pbs_k8s_operator.Restore.Pipeline.{
  volume_groups, pipeline_name, fetch_job, apply_job, volume_job,
}

-- What of a reconcile is seen: the Jobs created and the phases recorded.
pub data Deed : Type 0 where
  job_created : Job → Deed
  phase_recorded : RestorePhase → Deed

abbrev pub deeds : Call → List Deed
deeds (create_job job) = job_created job ∷ []
deeds (patch_status st) = phase_recorded st.phase ∷ []
deeds _ = []

-- What the API server answers to the reads of the Jobs by their names and of the manifest, as long as
-- the reconcile runs.
pub record Reads : Type 0 where
  pub job : String → Got Job
  pub manifest : Got ConfigMap

-- No element, or one.
abbrev pub AtMostOne : {V : Type 0} → (V → Type 0) → List V → Type 0
AtMostOne P xs = (xs ≡ []) ⊎ ((d : _) × (xs ≡ d ∷ []) × P d)

pub deeds-Sees : Sees deeds phase_recorded
deeds-Sees = record { on_status = λ st. refl; on_event = λ w r t. refl }

module _ {W : Type 0} (cluster : Cluster W) (rs : PbsRestore) (answers : Reads) where
  -- A Job that has done its work: it is complete, or it is gone and was complete.
  pub data IsDone (name : String) : Type 0 where
    complete :
        (job : Job) → answers.job name ≡ got job → job_condition job "Complete" ≡ true → IsDone name
    reaped :
        answers.job name ≡ not_found
        → known_job rs name ≡ true
        → (recorded_job_state rs name == "complete") ≡ true
        → IsDone name

  abbrev pub claims : List ParsedDoc → List String
  claims docs =
      pvcs_from_docs ((bucket_docs cluster.yaml docs rs.spec.drop_kinds rs.spec.keep_kinds).pre)

  abbrev pub IsDoneOn : String → Type 0
  IsDoneOn node = IsDone (pipeline_name cluster rs ("vol-" +++ node))

  -- The documents of the manifest that is read.
  pub record IsManifest (docs : List ParsedDoc) : Type 0 where
    pub cm : ConfigMap
    pub there : answers.manifest ≡ got cm
    pub parsed :
        parse_api_manifests cluster.yaml (value_at "api.yaml" cm.entries) rs.spec.target_namespace
        ≡ ok docs

  -- The volume Jobs of all the nodes of the manifest's claims are done.
  pub record VolumesDone : Type 0 where
    pub docs : List ParsedDoc
    pub manifest : IsManifest docs
    pub fallback : String
    pub groups : Groups
    pub placed : volume_groups docs fallback (claims docs) [] ≡ usable groups
    pub done : All IsDoneOn (nodes_of groups)

  abbrev pub IsFetched : Type 0
  IsFetched = IsDone (pipeline_name cluster rs "api-fetch")

  abbrev pub IsPrepared : Type 0
  IsPrepared = IsFetched × IsDone (pipeline_name cluster rs "api-pre")

  abbrev pub created : String → Job → Deed
  created step built =
      job_created (pipeline_job cluster.steps rs (pipeline_name cluster rs step) built)

  -- The Job of a step is not there, and the status does not know it.
  abbrev pub IsFresh : String → Type 0
  IsFresh step =
      (answers.job (pipeline_name cluster rs step) ≡ not_found)
      × (known_job rs (pipeline_name cluster rs step) ≡ false)

  -- A Job of the pipeline, where all the Jobs before it are done.
  pub data IsNext : Deed → Type 0 where
    fetch :
        (sec : String)
        → IsFresh "api-fetch"
        → IsNext (created "api-fetch" (fetch_job cluster rs sec))
    pre :
        (sec : String)
        → IsFetched
        → IsFresh "api-pre"
        → IsNext (created "api-pre" (apply_job cluster rs sec "pre"))
    volume :
        (sec : String) (groups : Groups) (node : String)
        → IsPrepared
        → IsFresh ("vol-" +++ node)
        → IsNext (created ("vol-" +++ node) (volume_job cluster rs sec groups node))
    workload :
        (sec : String)
        → IsPrepared
        → VolumesDone
        → IsFresh "api-workload"
        → IsNext (created "api-workload" (apply_job cluster rs sec "workload"))

  -- A phase that the Jobs that are done allow.
  pub data IsEarned : Deed → Type 0 where
    kept : IsEarned (phase_recorded (hold_phase rs.status.phase))
    failing : IsEarned (phase_recorded RestorePhase.failed)
    staging : IsEarned (phase_recorded RestorePhase.staging_api)
    restoring : IsPrepared → IsEarned (phase_recorded RestorePhase.restoring_volumes)
    applying : IsPrepared → VolumesDone → IsEarned (phase_recorded RestorePhase.applying_workloads)
    completing :
        IsPrepared
        → VolumesDone
        → IsDone (pipeline_name cluster rs "api-workload")
        → IsEarned (phase_recorded RestorePhase.completed)

  -- At most one Job is created, then phases are recorded.
  abbrev pub IsOneStep : List Deed → Type 0
  IsOneStep = Then (AtMostOne IsNext) (All IsEarned)

  pub no_step : AtMostOne IsNext []
  no_step = inl refl

  pub nothing : IsOneStep []
  nothing = Then-join [] [] no_step tt
