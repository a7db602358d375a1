-- ===== src/Manager.antt =====
-- cmd/main.go: the process of the operator. The flags are those that package flag read; a client, a
-- recorder and a scheme that the manager hands to a controller are not told apart.
pub mod Laws
use pbs_k8s_operator.Base.{ℕ, String, Bool, true, false, List, [], ◌∷◌, if◌then◌else◌}
use pbs_k8s_operator.Base.Integers.{ℤ, pos}
use pbs_k8s_operator.Base.Text.{is_empty}
use pbs_k8s_operator.Reconcile.{Answer, answer, refused, M, pure, ask, send, ◌>>=◌, ◌>>◌}

pub record Flags : Type 0 where
  pub metrics_addr : String
  pub probe_addr : String
  pub enable_leader_election : Bool
  pub secure_metrics : Bool
  pub webhook_cert_path : String
  pub webhook_cert_name : String
  pub webhook_cert_key : String
  pub webhook_port : ℤ
  pub metrics_cert_path : String
  pub metrics_cert_name : String
  pub metrics_cert_key : String
  pub enable_http2 : Bool
  pub agent_image : String

-- The flags that are not given.
abbrev pub default_flags : Flags
default_flags = record {
  metrics_addr = "0";
  probe_addr = ":8081";
  enable_leader_election = false;
  secure_metrics = true;
  webhook_cert_path = "";
  webhook_cert_name = "tls.crt";
  webhook_cert_key = "tls.key";
  webhook_port = pos 9443;
  metrics_cert_path = "";
  metrics_cert_name = "tls.crt";
  metrics_cert_key = "tls.key";
  enable_http2 = false;
  agent_image = "pbs-agent:dev";
}

-- The field of `tls.Config` that the process sets.
pub record TlsConfig : Type 0 where
  pub next_protos : List String

abbrev pub TlsOpts : Type 0
TlsOpts = List (TlsConfig → TlsConfig)

-- Where a certificate is; all are "" where the library's are to be used.
pub record CertFiles : Type 0 where
  pub cert_dir : String
  pub cert_name : String
  pub key_name : String

-- `webhook.Options`, `metricsserver.Options` and `ctrl.Options`, as far as they are set.
pub record WebhookOptions : Type 0 where
  pub tls_opts : TlsOpts
  pub port : ℤ
  pub cert : CertFiles

pub record MetricsOptions : Type 0 where
  pub bind_address : String
  pub secure_serving : Bool
  pub tls_opts : TlsOpts
  pub with_authorization : Bool  -- whether `FilterProvider` is set
  pub cert : CertFiles

pub record ManagerOptions : Type 0 where
  pub metrics : MetricsOptions
  pub webhook : WebhookOptions
  pub health_probe_bind_address : String
  pub leader_election : Bool
  pub leader_election_id : String

-- The controllers, with the agent image where one has it.
pub data Controller : Type 0 where
  pbsrepo pbsschedule : Controller
  pbsbackup pbsrestore : String → Controller

pub data Call : Type 0 where
  info problem : String → Call  -- a line of the log
  create_manager : ManagerOptions → Call
  create_dynamic create_discovery create_metrics create_executor : Call
  set_up : Controller → Call
  add_healthz add_readyz start : Call

-- controller-runtime and the clients.
pub record Env (W : Type 0) : Type 0 where
  pub log : W → Unit {0} × W
  pub get_config : W → Answer (Unit {0}) × W  -- where refused, `GetConfigOrDie` exits with 1
  pub request : Call → W → Answer (Unit {0}) × W

-- `disableHTTP2`, without its line of the log.
abbrev pub disable_http2 : TlsConfig → TlsConfig
disable_http2 c = record c { next_protos = "http/1.1" ∷ [] }

unfoldable pub tls_opts_of : Flags → TlsOpts
tls_opts_of f = if f.enable_http2 then [] else disable_http2 ∷ []

unfoldable pub cert_files : String → String → String → CertFiles
cert_files path name key =
    if is_empty path
    then record { cert_dir = ""; cert_name = ""; key_name = "" }
    else record { cert_dir = path; cert_name = name; key_name = key }

unfoldable pub webhook_options : Flags → WebhookOptions
webhook_options f = record {
  tls_opts = tls_opts_of f;
  port = f.webhook_port;
  cert = cert_files f.webhook_cert_path f.webhook_cert_name f.webhook_cert_key;
}

unfoldable pub metrics_options : Flags → MetricsOptions
metrics_options f = record {
  bind_address = f.metrics_addr;
  secure_serving = f.secure_metrics;
  tls_opts = tls_opts_of f;
  with_authorization = f.secure_metrics;
  cert = cert_files f.metrics_cert_path f.metrics_cert_name f.metrics_cert_key;
}

unfoldable pub manager_options : Flags → ManagerOptions
manager_options f = record {
  metrics = metrics_options f;
  webhook = webhook_options f;
  health_probe_bind_address = f.probe_addr;
  leader_election = f.enable_leader_election;
  leader_election_id = "e932101d.pbs.sharifmind.ir";
}

module _ {W : Type 0} (env : Env W) where
  abbrev Act : Type 0 → Type 0
  Act A = M W Call A

  -- A certificate of the process' own is named in the log.
  unfoldable pub note_cert : String → String → Act (Unit {0})
  note_cert path message = if is_empty path then pure tt else send (info message) env.log

  -- `setupLog.Error` and `os.Exit(1)`, for an error.
  unfoldable pub on_error : Answer (Unit {0}) → String → Act ℕ → Act ℕ
  on_error (answer u) message k = k
  on_error (refused e) message k = do send (problem message) env.log; pure 1

  -- A panic, which ends the process with 2.
  abbrev pub or_panic : Answer (Unit {0}) → Act ℕ → Act ℕ
  or_panic (answer u) k = k
  or_panic (refused e) k = pure 2

  -- `NewBackupMetrics` and `hooks.NewExecutor`, which panic on an error.
  abbrev pub must : Call → Act ℕ → Act ℕ
  must c k = do r ← send c (env.request c); or_panic r k

  abbrev pub attempt : Call → String → Act ℕ → Act ℕ
  attempt c message k = do r ← send c (env.request c); on_error r message k

  -- From the checks of health on.
  unfoldable pub serve : Act ℕ
  serve = attempt add_healthz "Failed to set up health check" (
      attempt add_readyz "Failed to set up ready check"
        (do send (info "Starting manager") env.log; attempt start "Failed to run manager" (pure 0)))

  -- From the manager on.
  unfoldable pub run_manager : Flags → Act ℕ
  unfolding serve
  run_manager f = attempt (create_manager (manager_options f)) "Failed to start manager" (
      attempt (set_up pbsrepo) "Failed to create controller" (
        attempt create_dynamic "Failed to create dynamic client" (
          attempt create_discovery "Failed to create discovery client" (
            must create_metrics (
              must create_executor (
                attempt (set_up (pbsbackup f.agent_image)) "Failed to create controller" (
                  attempt (set_up pbsschedule) "Failed to create controller" (
                    attempt (set_up (pbsrestore f.agent_image)) "Failed to create controller"
                      serve))))))))

  abbrev pub on_config : Answer (Unit {0}) → Act ℕ → Act ℕ
  on_config (answer u) k = k
  on_config (refused e) k = pure 1

  -- `main`, with the code that the process exits with.
  unfoldable pub main : Flags → Act ℕ
  main f = do
    note_cert f.webhook_cert_path
        "Initializing webhook certificate watcher using provided certificates"
    note_cert f.metrics_cert_path
        "Initializing metrics certificate watcher using provided certificates"
    r ← ask env.get_config
    on_config r (run_manager f)
