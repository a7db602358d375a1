-- ===== src/Agent/Main.antt =====
-- cmd/agent/main.go: the subcommands of the agent's process; and `DefaultPodNS` of
-- internal/agent/restore.go.
use pbs_k8s_operator.Base.{ℕ, String, List, [], ◌∷◌, ◌==◌, if◌then◌else◌}
use pbs_k8s_operator.Base.Text.{◌+++◌, trim_space, join}
use pbs_k8s_operator.Base.Text.Decimal.{decimal}
use pbs_k8s_operator.Reconcile.{Answer, answer, refused, M, pure, ◌>>◌}
use pbs_k8s_operator.Snapshots.{Clock}
use pbs_k8s_operator.RestorePlan.Parse.{Yaml}
use pbs_k8s_operator.Agent.Args.{
  ArgsError, bad_flags, nothing_to_back_up, unexpected_arguments, ref_required, pair_required,
  unpaired, bad_phase, file_required, Args, run_with, refuse, parse_backup_args,
  parse_restore_volume_args, parse_apply_args,
}
use pbs_k8s_operator.Agent.Process.{Os, Call, say}
use pbs_k8s_operator.Agent.Backup.{Decoder, run_backup}
use pbs_k8s_operator.Agent.Apply.{run_restore_volume, run_apply_manifests}

-- The libraries of the agent.
pub record Libraries (F : Type 0) : Type 0 where
  pub clock : Clock F
  pub decoder : Decoder F
  pub yaml : Yaml
  pub quote : String → String  -- `%q`
  pub flag_text : List String → String  -- what package flag says of wrong flags

abbrev pub sa_namespace_file : String
sa_namespace_file = "/var/run/secrets/kubernetes.io/serviceaccount/namespace"

abbrev pub pod_ns_of : Answer String → Answer String
pod_ns_of (refused e) = refused ("read " +++ sa_namespace_file +++ ": " +++ e)
pod_ns_of (answer content) = answer (trim_space content)

module _ {W F : Type 0} (os : Os W) (lib : Libraries F) where
  abbrev Act : Type 0 → Type 0
  Act A = M W Call A

  -- `DefaultPodNS`.
  unfoldable pub default_pod_ns : W → Answer String × W
  default_pod_ns w = let (a, w') = os.read_file sa_namespace_file w in (pod_ns_of a, w')

  -- The texts of the errors of the three parsers.
  unfoldable pub args_error_text : String → List String → ArgsError → String
  args_error_text sub args bad_flags = lib.flag_text args
  args_error_text sub args nothing_to_back_up = "backup: at least one --pvc or --api is required"
  args_error_text sub args ref_required = "restore-volume: --ref is required"
  args_error_text sub args pair_required =
      "restore-volume: at least one --archive/--target pair is required"
  args_error_text sub args (unexpected_arguments rest) =
      sub +++ ": unexpected arguments: " +++ join " " rest
  args_error_text sub args (unpaired archives targets) =
      "restore-volume: "
      +++ decimal archives
      +++ " --archive flags but "
      +++ decimal targets
      +++ " --targets"
  args_error_text sub args (bad_phase phase) =
      "apply-manifests: --phase must be pre or workload, got " +++ lib.quote phase
  args_error_text sub args file_required = "apply-manifests: --file is required"

  -- A message, and the exit code 2.
  abbrev pub misuse : String → Act ℕ
  misuse message = do say os message; pure 2

  -- What follows the parser of a subcommand.
  abbrev pub on_args : {A : Type 0} → String → List String → Args A → (A → Act ℕ) → Act ℕ
  on_args sub args (refuse e) k = misuse ("pbs-agent: " +++ args_error_text sub args e)
  on_args sub args (run_with a) k = k a

  -- `main`, for the arguments after the name of the program.
  unfoldable pub dispatch : List String → Act ℕ
  dispatch [] = misuse "usage: pbs-agent <backup|restore-volume|apply-manifests> [args...]"
  dispatch (sub ∷ args) =
      if sub == "backup"
      then on_args sub args (parse_backup_args args os.getenv)
          (λ a. run_backup os lib.clock lib.decoder a.pvcs a.api_dir a.notes a.termlog)
      else if sub == "restore-volume"
      then on_args sub args (parse_restore_volume_args args os.getenv)
          (λ a. run_restore_volume os a.ref a.pairs a.config_map a.termlog)
      else if sub == "apply-manifests"
      then on_args sub args (parse_apply_args args os.getenv) (λ a.
        run_apply_manifests os default_pod_ns lib.yaml lib.quote a.phase a.file a.drop a.keep
          a.termlog)
      else misuse (
          "unknown subcommand "
          +++ lib.quote sub
          +++ " (expected backup, restore-volume or apply-manifests)")

  -- `main`, for `os.Args`.
  unfoldable pub main : List String → Act ℕ
  unfolding dispatch
  main [] = dispatch []
  main (program ∷ args) = dispatch args
