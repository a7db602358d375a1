-- ===== src/Agent/MainLaws.antt =====
-- What the agent does with the commands of the Jobs that the controllers build.
use pbs_k8s_operator.Base.{
  ℕ, inl, inr, String, List, [], ◌∷◌, ◌++◌, map, ◌≡◌, ◌≢◌, refl, ap, ◌∙◌, ◌⊎◌, All, ◌==◌,
  if◌then◌else◌,
}
use pbs_k8s_operator.Base.Text.{join, trim_space}
use pbs_k8s_operator.JobSpec.{BackupJobSpec, backup_command}
use pbs_k8s_operator.RestoreJobs.{RestoreJobSpec, volume_command, apply_command, if_any}
use pbs_k8s_operator.Agent.Flags.{classify, parse_flags, parsed}
use pbs_k8s_operator.Agent.Args.{
  Args, refuse, parse_backup_args, parse_restore_volume_args, ApplyArgs, ApplyFlags, apply_flag,
  parse_apply_args, check_apply, run_with, termlog_of, csv,
}
use pbs_k8s_operator.Agent.Contract.{backup_args_of, backup_command-parse}
use pbs_k8s_operator.Agent.RestoreContract.{pair_of, volume_args_of, volume_command-parse}
use pbs_k8s_operator.Agent.Csv.{IsWord, csv-join}
use pbs_k8s_operator.Reconcile.{M}
use pbs_k8s_operator.Reconcile.Sequence.{Gives, Gives-pure, Gives-if, Gives-map}
use pbs_k8s_operator.Agent.Reports.{reports, IsReported, Never, after-Silent, say-Silent, Reporting}
use pbs_k8s_operator.Agent.Commands.{FailsAloud}
use pbs_k8s_operator.Agent.BackupLaws.{run_backup-Reporting}
use pbs_k8s_operator.Agent.ApplyLaws.{run_restore_volume-Reporting, run_apply_manifests-Reporting}
use pbs_k8s_operator.Agent.Process.{Os, Call, Report}
use pbs_k8s_operator.Agent.Backup.{run_backup}
use pbs_k8s_operator.Agent.Apply.{run_restore_volume, run_apply_manifests}
use pbs_k8s_operator.Agent.Main.{Libraries, default_pod_ns, misuse, on_args, dispatch, main}

-- `csv` reads the kinds back that an apply Job is given, also where there are none.
csv-if_any : (ks : List String) → All IsWord ks → csv (join "," ks) ≡ ks
unfolding csv join trim_space
csv-if_any [] h = refl
csv-if_any (k ∷ ks) h = csv-join k ks h

abbrev apply_start : String → ApplyFlags
apply_start termlog = record {
  phase = "";
  file = "";
  drop_list = "";
  keep_list = "";
  termlog = termlog;
}

abbrev apply_flags : String → String → List String → List String → ApplyFlags
apply_flags termlog phase drop keep = record {
  phase = phase;
  file = "/staging/api/api.yaml";
  drop_list = join "," drop;
  keep_list = join "," keep;
  termlog = termlog;
}

abbrev apply_words : String → List String → List String → List String
apply_words phase drop keep =
    "--phase"
    ∷ phase
    ∷ "--file"
    ∷ "/staging/api/api.yaml"
    ∷ (if_any drop ("--drop" ∷ join "," drop ∷ []) ++ if_any keep ("--keep" ∷ join "," keep ∷ []))

parse_flags-apply :
    (termlog phase : String) (drop keep : List String)
    → parse_flags apply_flag (apply_start termlog) (apply_words phase drop keep)
      ≡ parsed (apply_flags termlog phase drop keep) []
unfolding parse_flags classify apply_flag join
parse_flags-apply termlog phase [] [] = refl
parse_flags-apply termlog phase [] (k ∷ keep) = refl
parse_flags-apply termlog phase (d ∷ drop) [] = refl
parse_flags-apply termlog phase (d ∷ drop) (k ∷ keep) = refl

abbrev apply_args : String → String → List String → List String → ApplyArgs
apply_args termlog phase drop keep = record {
  phase = phase;
  file = "/staging/api/api.yaml";
  drop = drop;
  keep = keep;
  termlog = termlog;
}

accepts_phase :
    (termlog phase : String) (drop keep : List String)
    → (phase ≡ "pre") ⊎ (phase ≡ "workload")
    → All IsWord drop
    → All IsWord keep
    → check_apply (parsed (apply_flags termlog phase drop keep) [])
      ≡ run_with (apply_args termlog phase drop keep)
unfolding check_apply
accepts_phase termlog phase drop keep h hd hk = elim h [
  | inl e ↦ rw (e, csv-if_any drop hd, csv-if_any keep hk) refl
  | inr e ↦ rw (e, csv-if_any drop hd, csv-if_any keep hk) refl
]

module _ {W F : Type 0} (os : Os W) (lib : Libraries F) where
  -- The command of a backup Job with something to back up runs the backup of the Job's claims, with
  -- the staging directory where the Job has a staging ConfigMap, and with the Job's notes.
  pub main-backup_command :
      (spec : BackupJobSpec)
      → (spec.pvcs ≢ []) ⊎ (spec.staging_config_map ≢ "")
      → main os lib (backup_command spec)
        ≡ run_backup os lib.clock lib.decoder spec.pvcs
            (if spec.staging_config_map == "" then "" else "/staging/api")
            spec.notes
            (termlog_of os.getenv)
  unfolding main dispatch backup_args_of
  main-backup_command spec h =
      let (args, e, f) = backup_command-parse spec os.getenv h in
      ap (main os lib) e
      ∙ ap
          (λ a.
            on_args os lib "backup" args a
              λ b. run_backup os lib.clock lib.decoder b.pvcs b.api_dir b.notes b.termlog)
          f

  -- The command of a volume restore Job, for a snapshot that is named and at least one claim, runs the
  -- restore of that snapshot with each claim's archive and directory, and without an upload.
  pub main-volume_command :
      (spec : RestoreJobSpec) (pvc : String) (pvcs : List String)
      → spec.ref ≢ ""
      → main os lib (volume_command spec (pvc ∷ pvcs))
        ≡ run_restore_volume os spec.ref (map pair_of (pvc ∷ pvcs)) "" (termlog_of os.getenv)
  unfolding main dispatch volume_args_of
  main-volume_command spec pvc pvcs h =
      let (args, e, f) = volume_command-parse spec pvc pvcs os.getenv h in
      ap (main os lib) e
      ∙ ap
          (λ a.
            on_args os lib "restore-volume" args a
              λ b. run_restore_volume os b.ref b.pairs b.config_map b.termlog)
          f

  -- The command of an apply Job, for one of the two phases and kinds that are words, runs the apply of
  -- that phase to the staged manifest, with the Job's kinds to drop and to keep.
  pub main-apply_command :
      (phase : String) (drop keep : List String)
      → (phase ≡ "pre") ⊎ (phase ≡ "workload")
      → All IsWord drop
      → All IsWord keep
      → main os lib (apply_command phase drop keep)
        ≡ run_apply_manifests os
            (default_pod_ns os lib)
            lib.yaml
            lib.quote
            phase
            "/staging/api/api.yaml"
            drop
            keep
            (termlog_of os.getenv)
  unfolding main dispatch apply_command parse_apply_args
  main-apply_command phase drop keep h hd hk =
      let termlog = termlog_of os.getenv in
      ap
        (λ a. on_args os lib "apply-manifests" (apply_words phase drop keep) a λ b.
          run_apply_manifests os (default_pod_ns os lib) lib.yaml lib.quote b.phase b.file b.drop
            b.keep b.termlog)
        (ap check_apply (parse_flags-apply termlog phase drop keep)
          ∙ accepts_phase termlog phase drop keep h hd hk)

  abbrev pub EndsWell : ℕ → List Report → Type 0
  EndsWell code xs = ((xs ≡ []) × (code ≡ 2)) ⊎ IsReported code xs

  abbrev pub Ending : M W Call ℕ → Type 0
  Ending m = Gives reports EndsWell Never m

  misuse-Ending : (message : String) → Ending (misuse os lib message)
  misuse-Ending message =
      after-Silent _ _ (say-Silent os message) λ u. Gives-pure 2 (inl (refl, refl))

  on_args-Ending :
      {A : Type 0} (sub : String) (args : List String) (a : Args A) (k : A → M W Call ℕ)
      → ((x : A) → Reporting os (k x))
      → Ending (on_args os lib sub args a k)
  on_args-Ending sub args (refuse e) k h = misuse-Ending _
  on_args-Ending sub args (run_with x) k h =
      Gives-map {R = IsReported} {E = Never} (k x) (λ code xs r. inr r) (h x)

  dispatch-Ending : FailsAloud os → (args : List String) → Ending (dispatch os lib args)
  unfolding dispatch
  dispatch-Ending aloud [] = misuse-Ending _
  dispatch-Ending aloud (sub ∷ args) =
      Gives-if (sub == "backup") _ _
        (λ _. on_args-Ending sub args (parse_backup_args args os.getenv) _ λ a.
          run_backup-Reporting os aloud lib.clock lib.decoder a.pvcs a.api_dir a.notes a.termlog)
        λ _.
          Gives-if (sub == "restore-volume") _ _
            (λ _.
              on_args-Ending sub args (parse_restore_volume_args args os.getenv) _
                λ a. run_restore_volume-Reporting os aloud a.ref a.pairs a.config_map a.termlog)
            λ _.
              Gives-if (sub == "apply-manifests") _ _
                (λ _. on_args-Ending sub args (parse_apply_args args os.getenv) _ λ a.
                  run_apply_manifests-Reporting os aloud (default_pod_ns os lib) lib.yaml lib.quote
                    a.phase a.file a.drop a.keep a.termlog)
                λ _. misuse-Ending _

  -- Where a command that fails has an exit code other than 0, every process of the agent ends, whatever
  -- its arguments, in one of two ways: it exits with 2 and leaves no report, or it leaves just one
  -- report in the termination log, one of success where it exits with 0 and an error where it exits
  -- with another code.
  pub main-Ending : FailsAloud os → (args : List String) → Ending (main os lib args)
  unfolding main
  main-Ending aloud [] = dispatch-Ending aloud []
  main-Ending aloud (program ∷ args) = dispatch-Ending aloud args
