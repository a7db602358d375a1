-- ===== src/Tests/Agents.antt =====
-- Runs of the agent.
use pbs_k8s_operator.Base.{ℕ, inl, map, ◌≡◌, refl, none, some, false, [], ◌∷◌}
use pbs_k8s_operator.Value.{end}
use pbs_k8s_operator.Reconcile.{answer}
use pbs_k8s_operator.RestorePlan.Parse.{Yaml, decoded}
use pbs_k8s_operator.Agent.Process.{Os, Ran}
use pbs_k8s_operator.Agent.Backup.{Decoder, run_backup}
use pbs_k8s_operator.Agent.Apply.{run_restore_volume, run_apply_manifests}
use pbs_k8s_operator.Agent.Commands.{FailsAloud}
use pbs_k8s_operator.Agent.Args.{termlog_of}
use pbs_k8s_operator.Agent.RestoreContract.{pair_of}
use pbs_k8s_operator.Agent.Main.{Libraries, default_pod_ns, main}
use pbs_k8s_operator.Agent.MainLaws.{
  Ending, main-backup_command, main-volume_command, main-apply_command, main-Ending,
}
use pbs_k8s_operator.Agent.Newest.{OneOwn, run_backup-Newest}
use pbs_k8s_operator.Agent.Reports.{reports, Never}
use pbs_k8s_operator.Reconcile.Sequence.{Gives}
use pbs_k8s_operator.Tests.Jobs.{seconds, strict}
use pbs_k8s_operator.JobSpec.{BackupJobSpec, backup_command}
use pbs_k8s_operator.RestoreJobs.{RestoreJobSpec, volume_command, apply_command}

abbrev went_well : Ran
went_well = record { out = "[]"; errs = ""; failure = none }

abbrev quiet_os : Os ℕ
quiet_os = record {
  getenv = λ key. "x";
  environ = [];
  hostname = λ w. (answer "nightly-node-1", w);
  run = λ argv env w. (went_well, w);
  termlog = λ path r w. (answer tt, w);
  print = λ w. (tt, w);
  create_temp = λ pattern w. (answer "/tmp/file", w);
  write_temp = λ path content w. (answer tt, w);
  close_temp = λ path w. (answer tt, w);
  remove = λ path w. (tt, w);
  read_file = λ path w. (answer "", w);
  read_dir = λ dir w. (answer ("old" ∷ []), w);
  remove_all = λ path w. (answer tt, w);
  path_join = λ dir name. name;
  walk_dir = λ dir w. (record { unreadable = false; is_dir = false; size = some 7 } ∷ [], w);
}

quiet_os-FailsAloud : FailsAloud quiet_os
quiet_os-FailsAloud argv env w e is = absurd (cc is)

abbrev one_snapshot : Decoder ℕ
one_snapshot = record {
  envelope = λ s. none;
  bare = λ s. answer (
      record { backup_type = "host"; backup_id = "nightly-node-1"; backup_time = 9; size = 5 }
      ∷ []);
}

abbrev no_yaml : Yaml
no_yaml = record { read_docs = λ s. []; unmarshal = λ s. decoded end; marshal = λ f. "" }

abbrev libraries : Libraries ℕ
libraries = record {
  clock = seconds;
  decoder = one_snapshot;
  yaml = no_yaml;
  quote = λ s. s;
  flag_text = λ args. "flag provided but not defined";
}

abbrev nightly : BackupJobSpec
nightly = record {
  name = "nightly-node-1";
  namespace = "team";
  node = "node-1";
  repo_secret = "nightly-repo";
  pvcs = "data" ∷ "logs" ∷ [];
  staging_config_map = "nightly-api";
  notes = "keep";
  image = "agent:1";
  service_account = "agent";
}

abbrev back : RestoreJobSpec
back = record {
  name = "back-fetch";
  restore = "back";
  namespace = "team";
  repo_secret = "back-repo";
  ref = "host/team/7";
  image = "agent:1";
  service_account = "agent";
}

main-backup_command_example :
    main quiet_os libraries (backup_command nightly)
    ≡ run_backup quiet_os seconds one_snapshot
        ("data" ∷ "logs" ∷ [])
        "/staging/api"
        "keep"
        (termlog_of quiet_os.getenv)
main-backup_command_example = main-backup_command quiet_os libraries nightly (inl (λ e. cc e))

main-volume_command_example :
    main quiet_os libraries (volume_command back ("data" ∷ []))
    ≡ run_restore_volume quiet_os "host/team/7"
        (map pair_of ("data" ∷ []))
        ""
        (termlog_of quiet_os.getenv)
main-volume_command_example = main-volume_command quiet_os libraries back "data" [] (λ e. cc e)

main-apply_command_example :
    main quiet_os libraries (apply_command "pre" ("Job" ∷ "Pod" ∷ []) [])
    ≡ run_apply_manifests quiet_os
        (default_pod_ns quiet_os libraries)
        no_yaml
        (λ s. s)
        "pre"
        "/staging/api/api.yaml"
        ("Job" ∷ "Pod" ∷ [])
        []
        (termlog_of quiet_os.getenv)
main-apply_command_example =
    main-apply_command quiet_os libraries "pre" ("Job" ∷ "Pod" ∷ []) [] (inl refl)
      (
        (refl, refl, (refl, refl, (refl, refl, tt))),
        ((refl, refl, (refl, refl, (refl, refl, tt))), tt),
      )
      tt

main-Ending_example :
    Ending quiet_os libraries (main quiet_os libraries ("pbs-agent" ∷ "backup" ∷ []))
main-Ending_example =
    main-Ending quiet_os libraries quiet_os-FailsAloud ("pbs-agent" ∷ "backup" ∷ [])

run_backup-Newest_example :
    Gives reports
      (OneOwn quiet_os seconds strict one_snapshot ("data" ∷ []) "")
      Never
      (run_backup quiet_os seconds one_snapshot ("data" ∷ []) "" "keep" "/dev/termination-log")
run_backup-Newest_example =
    run_backup-Newest quiet_os seconds strict one_snapshot ("data" ∷ []) "" "keep"
      "/dev/termination-log"
