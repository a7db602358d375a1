-- ===== src/Agent/Args.antt =====
-- internal/agent/backup.go and restore.go: `ParseBackupArgs`, `ParseRestoreVolumeArgs`,
-- `ParseApplyArgs` and `csv`.
use pbs_k8s_operator.Base.{
  ℕ, String, Bool, true, false, not, ◌&&◌, Option, none, some, List, [], ◌∷◌, ◌++◌, ◌==◌,
  if◌then◌else◌, eqb, length,
}
use pbs_k8s_operator.Base.Text.{trim_space, split}
use pbs_k8s_operator.Agent.Flags.{parse_flags, Flags, parsed, flag_error}

pub data ArgsError : Type 0 where
  bad_flags nothing_to_back_up ref_required pair_required : ArgsError
  unexpected_arguments : List String → ArgsError
  unpaired : ℕ → ℕ → ArgsError
  bad_phase : String → ArgsError
  file_required : ArgsError

pub data Args (A : Type 0) : Type 0 where
  run_with : A → Args A
  refuse : ArgsError → Args A

abbrev pub default_termlog : String
default_termlog = "/dev/termination-log"

-- The termination log without a flag: `$TERMLOG`, else the default.
unfoldable pub termlog_of : (String → String) → String
termlog_of getenv = let t = trim_space (getenv "TERMLOG") in if t == "" then default_termlog else t

pub record BackupArgs : Type 0 where
  pub pvcs : List String
  pub api_dir : String
  pub notes : String
  pub termlog : String

unfoldable pub backup_flag : String → Option (String → BackupArgs → BackupArgs)
backup_flag name =
    if name == "pvc"
    then some (λ v s. record s { pvcs = s.pvcs ++ v ∷ [] })
    else if name == "api"
    then some (λ v s. record s { api_dir = v })
    else if name == "notes"
    then some (λ v s. record s { notes = v })
    else if name == "termlog"
    then some (λ v s. record s { termlog = v })
    else none

abbrev pub none_left : List String → Bool
none_left [] = true
none_left (a ∷ rest) = false

unfoldable pub check_backup : Flags BackupArgs → Args BackupArgs
check_backup flag_error = refuse bad_flags
check_backup (parsed s rest) =
    if none_left s.pvcs && s.api_dir == ""
    then refuse nothing_to_back_up
    else if none_left rest
    then run_with s
    else refuse (unexpected_arguments rest)

unfoldable pub parse_backup_args : List String → (String → String) → Args BackupArgs
unfolding check_backup
parse_backup_args args getenv = check_backup (
    parse_flags backup_flag
      (record { pvcs = []; api_dir = ""; notes = ""; termlog = termlog_of getenv }) args)

pub record RestorePair : Type 0 where
  pub archive : String
  pub target : String

pub record VolumeFlags : Type 0 where
  pub ref : String
  pub archives : List String
  pub targets : List String
  pub config_map : String
  pub termlog : String

unfoldable pub volume_flag : String → Option (String → VolumeFlags → VolumeFlags)
volume_flag name =
    if name == "ref"
    then some (λ v s. record s { ref = v })
    else if name == "archive"
    then some (λ v s. record s { archives = s.archives ++ v ∷ [] })
    else if name == "target"
    then some (λ v s. record s { targets = s.targets ++ v ∷ [] })
    else if name == "configmap"
    then some (λ v s. record s { config_map = v })
    else if name == "termlog"
    then some (λ v s. record s { termlog = v })
    else none

pub record VolumeArgs : Type 0 where
  pub ref : String
  pub pairs : List RestorePair
  pub config_map : String
  pub termlog : String

-- The loop that pairs the archives with the targets, which are as many.
unfoldable pub pair_up : List String → List String → List RestorePair
pair_up (a ∷ archives) (t ∷ targets) = record { archive = a; target = t } ∷ pair_up archives targets
pair_up _ _ = []

unfoldable pub check_volume : Flags VolumeFlags → Args VolumeArgs
check_volume flag_error = refuse bad_flags
check_volume (parsed s rest) =
    if s.ref == ""
    then refuse ref_required
    else if none_left s.archives
    then refuse pair_required
    else if not (eqb (length s.archives) (length s.targets))
    then refuse (unpaired (length s.archives) (length s.targets))
    else if none_left rest
    then run_with (record {
      ref = s.ref;
      pairs = pair_up s.archives s.targets;
      config_map = s.config_map;
      termlog = s.termlog;
    })
    else refuse (unexpected_arguments rest)

unfoldable pub parse_restore_volume_args : List String → (String → String) → Args VolumeArgs
unfolding check_volume
parse_restore_volume_args args getenv = check_volume (
    parse_flags volume_flag
      (record {
        ref = "";
        archives = [];
        targets = [];
        config_map = "";
        termlog = termlog_of getenv;
      })
      args)

pub record ApplyFlags : Type 0 where
  pub phase : String
  pub file : String
  pub drop_list : String
  pub keep_list : String
  pub termlog : String

unfoldable pub apply_flag : String → Option (String → ApplyFlags → ApplyFlags)
apply_flag name =
    if name == "phase"
    then some (λ v s. record s { phase = v })
    else if name == "file"
    then some (λ v s. record s { file = v })
    else if name == "drop"
    then some (λ v s. record s { drop_list = v })
    else if name == "keep"
    then some (λ v s. record s { keep_list = v })
    else if name == "termlog"
    then some (λ v s. record s { termlog = v })
    else none

pub record ApplyArgs : Type 0 where
  pub phase : String
  pub file : String
  pub drop : List String
  pub keep : List String
  pub termlog : String

-- The loop of `csv` over the parts.
unfoldable pub trim_parts : List String → List String
trim_parts [] = []
trim_parts (f ∷ fs) =
    let rest = trim_parts fs in if trim_space f == "" then rest else trim_space f ∷ rest

unfoldable pub csv : String → List String
csv list = if trim_space list == "" then [] else trim_parts (split b',' list)

unfoldable pub check_apply : Flags ApplyFlags → Args ApplyArgs
check_apply flag_error = refuse bad_flags
check_apply (parsed s rest) =
    if not (s.phase == "pre") && not (s.phase == "workload")
    then refuse (bad_phase s.phase)
    else if s.file == ""
    then refuse file_required
    else if none_left rest
    then run_with (record {
      phase = s.phase;
      file = s.file;
      drop = csv s.drop_list;
      keep = csv s.keep_list;
      termlog = s.termlog;
    })
    else refuse (unexpected_arguments rest)

unfoldable pub parse_apply_args : List String → (String → String) → Args ApplyArgs
unfolding check_apply
parse_apply_args args getenv = check_apply (
    parse_flags apply_flag
      (record {
        phase = "";
        file = "";
        drop_list = "";
        keep_list = "";
        termlog = termlog_of getenv;
      })
      args)
