-- ===== src/RestoreJobs.antt =====
-- internal/backup/job.go: the Jobs of a restore. They run in the target namespace.
use pbs_k8s_operator.Base.{String, Option, none, some, false, List, [], ◌∷◌, ◌++◌}
use pbs_k8s_operator.Base.Text.{◌+++◌, join}
use pbs_k8s_operator.Kube.{
  NodeAffinity, EnvVar, literal, Volume, VolumeMount, empty_dir, Job, new_meta,
}
use pbs_k8s_operator.JobSpec.{
  contract_env, pinned_to, claim_volumes, claim_mounts, staging_volume, staging_mount, job_labels,
}

pub record RestoreJobSpec : Type 0 where
  pub name : String
  pub restore : String
  pub namespace : String
  pub repo_secret : String
  pub ref : String
  pub image : String
  pub service_account : String

-- `restoreJobBase` with the volumes, mounts, further environment and affinity that the builders
-- put into its pod.
unfoldable pub restore_job :
    RestoreJobSpec
    → List String
    → List EnvVar
    → List Volume
    → List VolumeMount
    → Option NodeAffinity
    → Job
restore_job spec command env volumes mounts affinity = record {
  meta = new_meta spec.name spec.namespace (job_labels "pbsrestore" spec.restore);
  backoff_limit = 0;
  ttl_seconds = 3600;
  template_labels = job_labels "pbsrestore" spec.restore;
  pod = record {
    hostname = "";
    restart_policy = "Never";
    service_account = spec.service_account;
    affinity = affinity;
    containers =
        record {
          name = "restore";
          image = spec.image;
          command = command;
          env = contract_env spec.repo_secret ++ env;
          mounts = mounts;
          pull_policy = "IfNotPresent";
        }
        ∷ [];
    volumes = volumes;
    node_name = "";
  };
  conditions = [];
}

-- internal/backup/job.go: `cacheVolume`, `cacheMount`, `addCacheEnv`.
abbrev pub cache_volume : Volume
cache_volume = record { name = "client-cache"; source = empty_dir "Memory" }

abbrev pub cache_mount : VolumeMount
cache_mount = record { name = "client-cache"; mount_path = "/cache"; read_only = false }

abbrev pub cache_env : List EnvVar
cache_env =
    record { name = "XDG_CACHE_HOME"; source = literal "/cache" }
    ∷ record { name = "TMPDIR"; source = literal "/cache" }
    ∷ []

unfoldable pub fetch_command : RestoreJobSpec → String → List String
fetch_command spec cm =
    "pbs-agent" ∷ "restore-volume" ∷ "--ref" ∷ spec.ref ∷ "--archive" ∷ "api.pxar.didx" ∷ "--target"
    ∷ "/staging/api" ∷ "--configmap" ∷ cm ∷ []

unfoldable pub build_api_fetch_job : RestoreJobSpec → String → Job
build_api_fetch_job spec cm =
    restore_job spec (fetch_command spec cm) cache_env
      (record { name = "api-staging"; source = empty_dir "" } ∷ cache_volume ∷ [])
      (record { name = "api-staging"; mount_path = "/staging/api"; read_only = false }
        ∷ cache_mount
        ∷ [])
      none

abbrev pub if_any : List String → List String → List String
if_any [] xs = []
if_any (k ∷ ks) xs = xs

unfoldable pub apply_command : String → List String → List String → List String
apply_command phase drop keep =
    "pbs-agent"
    ∷ "apply-manifests"
    ∷ "--phase"
    ∷ phase
    ∷ "--file"
    ∷ "/staging/api/api.yaml"
    ∷ (if_any drop ("--drop" ∷ join "," drop ∷ []) ++ if_any keep ("--keep" ∷ join "," keep ∷ []))

unfoldable pub build_apply_job : RestoreJobSpec → String → String → List String → List String → Job
build_apply_job spec phase cm drop keep =
    restore_job spec (apply_command phase drop keep) [] (staging_volume cm ∷ [])
      (staging_mount ∷ []) none

unfoldable pub archive_args : List String → List String
archive_args [] = []
archive_args (pvc ∷ pvcs) =
    "--archive"
    ∷ ("pvc-" +++ pvc +++ ".pxar.didx")
    ∷ "--target"
    ∷ ("/backup/" +++ pvc)
    ∷ archive_args pvcs

unfoldable pub volume_command : RestoreJobSpec → List String → List String
volume_command spec pvcs = "pbs-agent" ∷ "restore-volume" ∷ "--ref" ∷ spec.ref ∷ archive_args pvcs

unfoldable pub build_restore_volume_job : RestoreJobSpec → String → List String → Job
build_restore_volume_job spec node pvcs =
    restore_job spec (volume_command spec pvcs) cache_env
      (claim_volumes false 0 pvcs ++ cache_volume ∷ [])
      (claim_mounts false 0 pvcs ++ cache_mount ∷ []) (some (pinned_to node))
