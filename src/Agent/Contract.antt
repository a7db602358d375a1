-- ===== src/Agent/Contract.antt =====
-- The command line of a backup Job is one that the agent reads.
use pbs_k8s_operator.Base.{
  String, Bool, false, ◌&&◌, List, [], ◌∷◌, ◌++◌, ◌==◌, if◌then◌else◌, ◌≡◌, ◌≢◌, refl, ap, ◌∙◌,
  arith, append-nil, append_assoc, ◌⊎◌, eq_iff, Bool-cases, inl, inr, ==-false_of_ne,
}
use pbs_k8s_operator.JobSpec.{BackupJobSpec, backup_command, pvc_args, if_set}
use pbs_k8s_operator.Agent.Flags.{classify, parse_flags, parsed}
use pbs_k8s_operator.Agent.Args.{
  BackupArgs, none_left, backup_flag, parse_backup_args, run_with, termlog_of, check_backup,
}

abbrev with_pvcs : BackupArgs → List String → BackupArgs
with_pvcs s pvcs = record s { pvcs = s.pvcs ++ pvcs }

parse-pvc_args :
    (s : BackupArgs) (pvcs tail : List String)
    → parse_flags backup_flag s (pvc_args pvcs ++ tail)
      ≡ parse_flags backup_flag (with_pvcs s pvcs) tail
unfolding parse_flags classify backup_flag pvc_args
parse-pvc_args s [] tail = rw append-nil refl
parse-pvc_args s (pvc ∷ pvcs) tail =
    parse-pvc_args (with_pvcs s (pvc ∷ [])) pvcs tail
    ∙ ap (λ (l : List String). parse_flags backup_flag (record s { pvcs = l }) tail)
        (append_assoc s.pvcs (pvc ∷ []) pvcs)

abbrev set_api : String → BackupArgs → BackupArgs
set_api staging s = record s { api_dir = if staging == "" then s.api_dir else "/staging/api" }

abbrev set_notes : String → BackupArgs → BackupArgs
set_notes notes s = record s { notes = if notes == "" then s.notes else notes }

parse-notes :
    (s : BackupArgs) (notes : String)
    → parse_flags backup_flag s (if_set notes ("--notes" ∷ notes ∷ []))
      ≡ parsed (set_notes notes s) []
unfolding parse_flags classify backup_flag
parse-notes s notes = elim (Bool-cases (notes == "")) [ inl e ↦ rw e refl | inr e ↦ rw e refl ]

parse-api :
    (s : BackupArgs) (staging : String) (tail : List String)
    → parse_flags backup_flag s (if_set staging ("--api" ∷ "/staging/api" ∷ []) ++ tail)
      ≡ parse_flags backup_flag (set_api staging s) tail
unfolding parse_flags classify backup_flag
parse-api s staging tail = elim (Bool-cases (staging == "")) [
  | inl e ↦ rw e refl
  | inr e ↦ rw e refl
]

-- What the agent is to do for a backup Job.
unfoldable pub backup_args_of : BackupJobSpec → (String → String) → BackupArgs
backup_args_of spec getenv = record {
  pvcs = spec.pvcs;
  api_dir = if spec.staging_config_map == "" then "" else "/staging/api";
  notes = spec.notes;
  termlog = termlog_of getenv;
}

unset_notes : (notes : String) → (if notes == "" then "" else notes) ≡ notes
unset_notes notes = ground (arith, eq_iff notes "")

none_left_of_ne : (xs : List String) → xs ≢ [] → none_left xs ≡ false
none_left_of_ne [] h = absurd (h refl)
none_left_of_ne (x ∷ xs) h = refl

and_false : (b : Bool) → (b && false) ≡ false
and_false b = ground arith

accepts :
    (spec : BackupJobSpec) (getenv : String → String)
    → (spec.pvcs ≢ []) ⊎ (spec.staging_config_map ≢ "")
    → check_backup (parsed (backup_args_of spec getenv) []) ≡ run_with (backup_args_of spec getenv)
unfolding check_backup backup_args_of
accepts spec getenv h = elim h [
  | inl some_pvc ↦ rw (none_left_of_ne spec.pvcs some_pvc) refl
  | inr staged ↦
      rw (==-false_of_ne spec.staging_config_map "" staged, and_false (none_left spec.pvcs)) refl
]

-- The command of a backup Job with something to back up is the agent's `backup` subcommand, and the
-- agent reads from its arguments the Job's claims in order, the staging directory exactly where the
-- Job has a staging ConfigMap, and the notes.
pub backup_command-parse :
    (spec : BackupJobSpec) (getenv : String → String)
    → (spec.pvcs ≢ []) ⊎ (spec.staging_config_map ≢ "")
    → (args : List String) × (backup_command spec ≡ "pbs-agent" ∷ "backup" ∷ args)
      × (parse_backup_args args getenv ≡ run_with (backup_args_of spec getenv))
unfolding backup_command parse_backup_args backup_args_of
backup_command-parse spec getenv h =
    let start : BackupArgs = record {
      pvcs = [];
      api_dir = "";
      notes = "";
      termlog = termlog_of getenv;
    } in
    let notes_tail : List String = if_set spec.notes ("--notes" ∷ spec.notes ∷ []) in
    let api_tail : List String = if_set spec.staging_config_map ("--api" ∷ "/staging/api" ∷ []) in
    (
      pvc_args spec.pvcs ++ (api_tail ++ notes_tail),
      refl,
      ap check_backup (
            parse-pvc_args start spec.pvcs (api_tail ++ notes_tail)
            ∙ parse-api (with_pvcs start spec.pvcs) spec.staging_config_map notes_tail
            ∙ parse-notes (set_api spec.staging_config_map (with_pvcs start spec.pvcs)) spec.notes)
          ∙ ap
              (λ (notes : String).
                check_backup (parsed (record (backup_args_of spec getenv) { notes = notes }) []))
              (unset_notes spec.notes)
          ∙ accepts spec getenv h,
    )
