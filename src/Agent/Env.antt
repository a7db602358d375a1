-- ===== src/Agent/Env.antt =====
-- internal/agent/backup.go: the environment contract and the command lines of the client.
use pbs_k8s_operator.Base.{String, List, [], ◌∷◌, ◌++◌, ◌==◌, if◌then◌else◌}
use pbs_k8s_operator.Base.Text.{◌+++◌, trim_space}
use pbs_k8s_operator.JobSpec.{if_set}

abbrev pub client_binary : String
client_binary = "proxmox-backup-client"

abbrev pub env_keys : List String
env_keys =
    "PBS_HOST" ∷ "PBS_PORT" ∷ "PBS_DATASTORE" ∷ "PBS_NS" ∷ "PBS_TOKEN_ID" ∷ "PBS_TOKEN_SECRET"
    ∷ "PBS_FINGERPRINT" ∷ "PBS_KEYFILE" ∷ []

pub record Config : Type 0 where
  pub host : String
  pub port : String
  pub datastore : String
  pub ns : String
  pub token_id : String
  pub token_secret : String
  pub fingerprint : String
  pub keyfile : String

-- The keys whose trimmed value is empty, in the order of the contract.
unfoldable pub missing_keys : (String → String) → List String → List String
missing_keys getenv [] = []
missing_keys getenv (k ∷ ks) =
    let rest = missing_keys getenv ks in if trim_space (getenv k) == "" then k ∷ rest else rest

unfoldable pub load_config : (String → String) → Config × List String
unfolding missing_keys
load_config getenv = (
  record {
    host = trim_space (getenv "PBS_HOST");
    port = trim_space (getenv "PBS_PORT");
    datastore = trim_space (getenv "PBS_DATASTORE");
    ns = trim_space (getenv "PBS_NS");
    token_id = trim_space (getenv "PBS_TOKEN_ID");
    token_secret = trim_space (getenv "PBS_TOKEN_SECRET");
    fingerprint = trim_space (getenv "PBS_FINGERPRINT");
    keyfile = trim_space (getenv "PBS_KEYFILE");
  },
  missing_keys getenv env_keys,
)

unfoldable pub client_env : Config → List String
client_env c =
    ("PBS_REPOSITORY=" +++ c.token_id +++ "@" +++ c.host +++ ":" +++ c.port +++ ":" +++ c.datastore)
    ∷ ("PBS_PASSWORD=" +++ c.token_secret)
    ∷ ("PBS_FINGERPRINT=" +++ c.fingerprint)
    ∷ []

unfoldable pub pxar_args : List String → List String
pxar_args [] = []
pxar_args (pvc ∷ pvcs) = ("pvc-" +++ pvc +++ ".pxar:/backup/" +++ pvc) ∷ pxar_args pvcs

unfoldable pub backup_argv : String → String → List String → String → List String
backup_argv ns keyfile_path pvcs api_dir =
    client_binary
    ∷ "backup"
    ∷ "--ns"
    ∷ ns
    ∷ "--keyfile"
    ∷ keyfile_path
    ∷ (pxar_args pvcs ++ if_set api_dir (("api.pxar:" +++ api_dir) ∷ []))

unfoldable pub notes_argv : String → String → String → List String
notes_argv ns ref notes =
    client_binary ∷ "snapshot" ∷ "notes" ∷ "update" ∷ "--ns" ∷ ns ∷ ref ∷ notes ∷ []

unfoldable pub list_argv : String → List String
list_argv ns = client_binary ∷ "snapshot" ∷ "list" ∷ "--ns" ∷ ns ∷ "--output-format" ∷ "json" ∷ []

unfoldable pub restore_argv : String → String → String → String → String → List String
restore_argv ns keyfile_path ref archive target =
    client_binary ∷ "restore" ∷ ref ∷ archive ∷ target ∷ "--ns" ∷ ns ∷ "--keyfile" ∷ keyfile_path
    ∷ "--overwrite" ∷ []
