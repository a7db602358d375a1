-- ===== src/JobSpec.antt =====
-- internal/backup/job.go: the Jobs that run the agent.
pub mod Laws
use pbs_k8s_operator.Base.{
  ℕ, suc, String, Bool, true, false, Option, none, some, List, [], ◌∷◌, ◌++◌, map, ◌==◌,
  if◌then◌else◌,
}
use pbs_k8s_operator.Base.Text.{◌+++◌, join}
use pbs_k8s_operator.Base.Text.Decimal.{decimal}
use pbs_k8s_operator.Kube.{
  StringMap, NodeAffinity, EnvVar, secret_key, literal, Volume, VolumeMount, claim, config_map,
  empty_dir, Container, PodSpec, Job, new_meta,
}
use pbs_k8s_operator.Placement.{hostname_key}

-- internal/backup/serialize.go: `ManagedLabel`.
abbrev pub managed_label : String
managed_label = "pbs.sharifmind.ir/managed"

pub record BackupJobSpec : Type 0 where
  pub name : String
  pub namespace : String
  pub node : String
  pub repo_secret : String
  pub pvcs : List String
  pub staging_config_map : String
  pub notes : String
  pub image : String
  pub service_account : String

-- Environment variable and secret key.
abbrev pub env_contract : List (String × String)
env_contract =
    ("PBS_HOST", "host")
    ∷ ("PBS_PORT", "port")
    ∷ ("PBS_DATASTORE", "datastore")
    ∷ ("PBS_NS", "namespace")
    ∷ ("PBS_TOKEN_ID", "tokenID")
    ∷ ("PBS_TOKEN_SECRET", "tokenSecret")
    ∷ ("PBS_FINGERPRINT", "fingerprint")
    ∷ ("PBS_KEYFILE", "keyfile")
    ∷ []

unfoldable pub contract_env : String → List EnvVar
contract_env secret =
    map (λ (c : String × String). record { name = c.0; source = secret_key secret c.1 })
      env_contract

-- The required affinity of a Job's pod for one node.
unfoldable pub pinned_to : String → NodeAffinity
pinned_to node = record {
  required = some (
      record {
        match_expressions = record { key = hostname_key; operator = "In"; values = node ∷ [] } ∷ [];
        match_fields = [];
      }
      ∷ []);
}

-- The volumes of the claims from number `i` on, with `ReadOnly` as given.
unfoldable pub claim_volumes : Bool → ℕ → List String → List Volume
claim_volumes read_only i [] = []
claim_volumes read_only i (pvc ∷ pvcs) =
    record { name = "pvc-" +++ decimal i; source = claim pvc read_only }
    ∷ claim_volumes read_only (suc i) pvcs

unfoldable pub claim_mounts : Bool → ℕ → List String → List VolumeMount
claim_mounts read_only i [] = []
claim_mounts read_only i (pvc ∷ pvcs) =
    record { name = "pvc-" +++ decimal i; mount_path = "/backup/" +++ pvc; read_only = read_only }
    ∷ claim_mounts read_only (suc i) pvcs

unfoldable pub pvc_args : List String → List String
pvc_args [] = []
pvc_args (pvc ∷ pvcs) = "--pvc" ∷ pvc ∷ pvc_args pvcs

-- What is appended where the text is set.
abbrev pub if_set {ℓ} : {A : Type ℓ} → String → List A → List A
if_set s xs = if s == "" then [] else xs

-- The command of the backup container.
unfoldable pub backup_command : BackupJobSpec → List String
backup_command spec =
    "pbs-agent"
    ∷ "backup"
    ∷ (pvc_args spec.pvcs
        ++ (if_set spec.staging_config_map ("--api" ∷ "/staging/api" ∷ [])
            ++ if_set spec.notes ("--notes" ∷ spec.notes ∷ [])))

abbrev pub staging_volume : String → Volume
staging_volume name = record { name = "api-staging"; source = config_map name }

abbrev pub staging_mount : VolumeMount
staging_mount = record { name = "api-staging"; mount_path = "/staging/api"; read_only = true }

unfoldable pub backup_volumes : BackupJobSpec → List Volume
backup_volumes spec =
    claim_volumes true 0 spec.pvcs
    ++ if_set spec.staging_config_map (staging_volume spec.staging_config_map ∷ [])

unfoldable pub backup_mounts : BackupJobSpec → List VolumeMount
backup_mounts spec =
    claim_mounts true 0 spec.pvcs ++ if_set spec.staging_config_map (staging_mount ∷ [])

abbrev pub job_labels : String → String → StringMap
job_labels key name =
    ("app.kubernetes.io/managed-by", "pbs-operator") ∷ (key, name) ∷ (managed_label, "true") ∷ []

unfoldable pub build_backup_job : BackupJobSpec → Job
unfolding backup_command backup_volumes backup_mounts
build_backup_job spec = record {
  meta = new_meta spec.name spec.namespace (job_labels "pbsbackup" spec.name);
  backoff_limit = 0;
  ttl_seconds = 3600;
  template_labels = job_labels "pbsbackup" spec.name;
  pod = record {
    hostname = spec.name;
    restart_policy = "Never";
    service_account = spec.service_account;
    affinity = some (pinned_to spec.node);
    containers =
        record {
          name = "backup";
          image = spec.image;
          command = backup_command spec;
          env = contract_env spec.repo_secret;
          mounts = backup_mounts spec;
          pull_policy = "IfNotPresent";
        }
        ∷ [];
    volumes = backup_volumes spec;
    node_name = "";
  };
  conditions = [];
}
