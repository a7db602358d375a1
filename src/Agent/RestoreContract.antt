-- ===== src/Agent/RestoreContract.antt =====
-- The command lines of the restore Jobs are those that the agent reads.
use pbs_k8s_operator.Base.{
  ℕ, suc, String, true, List, [], ◌∷◌, ◌++◌, map, ◌≡◌, ◌≢◌, refl, ap, ◌∙◌, arith, append-nil,
  append_assoc, eqb, length, length-map, ==-false_of_ne,
}
use pbs_k8s_operator.Base.Text.{◌+++◌}
use pbs_k8s_operator.RestoreJobs.{RestoreJobSpec, archive_args, volume_command, fetch_command}
use pbs_k8s_operator.Agent.Flags.{classify, parse_flags, parsed}
use pbs_k8s_operator.Agent.Args.{
  VolumeFlags, VolumeArgs, volume_flag, parse_restore_volume_args, run_with, termlog_of,
  check_volume, RestorePair, pair_up,
}

abbrev archive_of : String → String
archive_of pvc = "pvc-" +++ pvc +++ ".pxar.didx"

abbrev target_of : String → String
target_of pvc = "/backup/" +++ pvc

-- The unit of restoring one claim.
abbrev pub pair_of : String → RestorePair
pair_of pvc = record { archive = "pvc-" +++ pvc +++ ".pxar.didx"; target = "/backup/" +++ pvc }

abbrev with_pairs : VolumeFlags → List String → VolumeFlags
with_pairs s pvcs = record s {
  archives = s.archives ++ map archive_of pvcs;
  targets = s.targets ++ map target_of pvcs;
}

parse-archive_args :
    (s : VolumeFlags) (pvcs : List String)
    → parse_flags volume_flag s (archive_args pvcs) ≡ parsed (with_pairs s pvcs) []
unfolding parse_flags classify volume_flag archive_args
parse-archive_args s [] = rw (append-nil s.archives, append-nil s.targets) refl
parse-archive_args s (pvc ∷ pvcs) = parse-archive_args (with_pairs s (pvc ∷ [])) pvcs ∙ λ i.
    parsed
      (record s {
        archives = append_assoc s.archives (archive_of pvc ∷ []) (map archive_of pvcs) i;
        targets = append_assoc s.targets (target_of pvc ∷ []) (map target_of pvcs) i;
      })
      []

parse-ref :
    (s : VolumeFlags) (ref : String) (pvcs : List String)
    → parse_flags volume_flag s ("--ref" ∷ ref ∷ archive_args pvcs)
      ≡ parsed (with_pairs (record s { ref = ref }) pvcs) []
unfolding parse_flags classify volume_flag
parse-ref s ref pvcs = parse-archive_args (record s { ref = ref }) pvcs

pair_up-map :
    (pvcs : List String) → pair_up (map archive_of pvcs) (map target_of pvcs) ≡ map pair_of pvcs
unfolding pair_up
pair_up-map [] = refl
pair_up-map (pvc ∷ pvcs) = rw (pair_up-map pvcs)

eqb_refl : (n : ℕ) → eqb n n ≡ true
eqb_refl n = ground arith

-- What the agent is to do for a volume restore Job.
unfoldable pub volume_args_of : RestoreJobSpec → List String → (String → String) → VolumeArgs
volume_args_of spec pvcs getenv = record {
  ref = spec.ref;
  pairs = map pair_of pvcs;
  config_map = "";
  termlog = termlog_of getenv;
}

-- The command of a volume restore Job for at least one claim is the agent's `restore-volume`
-- subcommand, and the agent reads from its arguments the snapshot and, for each claim in order, the
-- claim's archive with the directory where the Job mounts it.
pub volume_command-parse :
    (spec : RestoreJobSpec) (pvc : String) (pvcs : List String) (getenv : String → String)
    → spec.ref ≢ ""
    → (args : List String) × (volume_command spec (pvc ∷ pvcs)
        ≡ "pbs-agent" ∷ "restore-volume" ∷ args)
      × (parse_restore_volume_args args getenv ≡ run_with (volume_args_of spec (pvc ∷ pvcs) getenv))
unfolding volume_command parse_restore_volume_args volume_args_of check_volume
volume_command-parse spec pvc pvcs getenv h =
    let start : VolumeFlags = record {
      ref = "";
      archives = [];
      targets = [];
      config_map = "";
      termlog = termlog_of getenv;
    } in
    let all = pvc ∷ pvcs in
    (
      "--ref" ∷ spec.ref ∷ archive_args all,
      refl,
      ap check_volume (parse-ref start spec.ref all)
          ∙ rw
              (
                ==-false_of_ne spec.ref "" h,
                length-map archive_of pvcs,
                length-map target_of pvcs,
                eqb_refl (suc (length pvcs)),
                pair_up-map (pvc ∷ pvcs),
              )
              refl,
    )

-- The command of a fetch Job is read as one pair, the API archive into the staging directory, with
-- the upload of the ConfigMap.
pub fetch_command-parse :
    (spec : RestoreJobSpec) (cm : String) (getenv : String → String)
    → spec.ref ≢ ""
    → (args : List String) × (fetch_command spec cm ≡ "pbs-agent" ∷ "restore-volume" ∷ args)
      × (parse_restore_volume_args args getenv
          ≡ run_with (record {
            ref = spec.ref;
            pairs = record { archive = "api.pxar.didx"; target = "/staging/api" } ∷ [];
            config_map = cm;
            termlog = termlog_of getenv;
          }))
unfolding fetch_command parse_restore_volume_args check_volume parse_flags classify volume_flag
    pair_up
fetch_command-parse spec cm getenv h = (
  "--ref" ∷ spec.ref ∷ "--archive" ∷ "api.pxar.didx" ∷ "--target" ∷ "/staging/api" ∷ "--configmap"
      ∷ cm ∷ [],
  refl,
  rw (==-false_of_ne spec.ref "" h) refl,
)
