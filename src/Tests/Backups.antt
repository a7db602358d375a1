-- ===== src/Tests/Backups.antt =====
-- Runs of the ends of a backup's reconcile, and of the reading of a hook.
use pbs_k8s_operator.Base.{String, ℕ, true, false, none, some, List, [], ◌∷◌, ◌≡◌, refl, All, map}
use pbs_k8s_operator.Kube.{new_meta, Pod, value_at}
use pbs_k8s_operator.Types.{PbsBackup, running}
use pbs_k8s_operator.JobSpec.{build_backup_job}
use pbs_k8s_operator.Hooks.{Argv, argv, hook, parse_hook}
use pbs_k8s_operator.Hooks.Laws.{IsRunnable, parse_hook-IsRunnable}
use pbs_k8s_operator.Reconcile.{answer, ◌>>=◌, ask, need, pure, send}
use pbs_k8s_operator.Reconcile.Effects.{view}
use pbs_k8s_operator.Reconcile.Brings.{Brings}
use pbs_k8s_operator.Backup.Outcome.{
  complete_backup, collect, finish_backup, completion, record_outcome, observe_completed,
}
use pbs_k8s_operator.Backup.Accounts.{posted, FailsOrAccounts, complete_backup-Accounts}
use pbs_k8s_operator.Backup.Results.{
  Env, PlacedJob, job_result, first_message, message_among, message_of,
}

abbrev nightly : PbsBackup
nightly = record {
  meta = new_meta "nightly" "team" [];
  spec = record { repo_ref = "store"; pvcs = "data" ∷ []; selector = none; notes = "" };
  status = record {
    phase = running;
    snapshot_ref = "";
    jobs = [];
    started_at = some 5;
    completed_at = none;
    bytes = 0;
    conditions = [];
  };
}

abbrev placed : List PlacedJob
placed =
    record {
      node = "node-1";
      job = build_backup_job (record {
        name = "nightly-node-1";
        namespace = "team";
        node = "node-1";
        repo_secret = "pbsrepo-store";
        pvcs = "data" ∷ [];
        staging_config_map = "";
        notes = "";
        image = "agent:1";
        service_account = "";
      });
    }
    ∷ []

abbrev pod : Pod
pod = record {
  meta = record (new_meta "db-0" "team" []) {
    annotations = ("pbs.backup/pre-hook-command", "dump") ∷ [];
  };
  spec = record {
    hostname = "";
    restart_policy = "";
    service_account = "";
    affinity = none;
    containers =
        record {
          name = "postgres";
          image = "";
          command = [];
          env = [];
          mounts = [];
          pull_policy = "";
        }
        ∷ [];
    volumes = [];
    node_name = "node-1";
  };
  statuses = record { terminated = some "host/nightly/9"; last_terminated = none } ∷ [];
}

abbrev one_word : String → Argv
one_word s = argv (s ∷ [])

dump_hook : parse_hook one_word pod ≡ hook "postgres" ("dump" ∷ [])
unfolding parse_hook value_at
dump_hook = refl

parse_hook-IsRunnable_example : IsRunnable one_word pod "postgres" ("dump" ∷ [])
parse_hook-IsRunnable_example =
    parse_hook-IsRunnable one_word pod "postgres" ("dump" ∷ []) dump_hook

-- The pod of the Job reports a snapshot.
abbrev reporting_env : Env ℕ
reporting_env = record {
  list_pods = λ ns name w. (answer (pod ∷ []), w);
  patch_status = λ st w. (answer tt, w);
  event = λ warning reason message w. (tt, w);
  metric = λ c w. (tt, w);
  has_metrics = true;
  now = λ w. (w, w);
  unmarshal = λ s. some (s, 7);
  quote = λ s. s;
  status_eq = λ a b. false;
  conditions = record {
    set_status_condition = λ cs c. (c ∷ [], true);
    is_status_condition_true = λ cs k. true;
  };
}

complete_backup-Accounts_example :
    Brings posted
      (All (FailsOrAccounts reporting_env nightly placed))
      (complete_backup reporting_env nightly placed)
complete_backup-Accounts_example = complete_backup-Accounts reporting_env nightly placed

-- The run records the reported snapshot.
reported :
    map
      (λ st. st.snapshot_ref)
      (view posted
        (complete_backup reporting_env nightly placed (record { world = 9; log = [] })).1.log)
    ≡ "host/nightly/9" ∷ []
unfolding complete_backup collect job_result first_message message_among message_of finish_backup
    completion record_outcome ◌>>=◌ ask need pure send observe_completed view
reported = refl
