-- ===== src/Tests/Reconciles.antt =====
-- Runs of whole reconciles of a backup.
use Prim.Native.String.{len}
use pbs_k8s_operator.Base.Integers.{pos}
use pbs_k8s_operator.Base.{
  ◌≤◌, ℕ, true, false, none, some, List, [], ◌∷◌, ◌++◌, ◌≡◌, refl, if◌then◌else◌, ◌==◌,
}
use pbs_k8s_operator.Kube.{Pod, PersistentVolumeClaim, claim, new_meta}
use pbs_k8s_operator.Types.{PbsBackup, PbsRepo, BackupPhase, new}
use pbs_k8s_operator.Hooks.{argv}
use pbs_k8s_operator.Reconcile.{Run, got, not_found, made, answer}
use pbs_k8s_operator.Reconcile.Effects.{view}
use pbs_k8s_operator.Backup.Results.{Call, Env}
use pbs_k8s_operator.Backup.Cluster.{Cluster}
use pbs_k8s_operator.Backup.Reconciler.{reconcile, place_all}
use pbs_k8s_operator.Backup.PlacementLaws.{Partitions, place_all-Partitions}
use pbs_k8s_operator.Reconcile.Returns.{Returns}
use pbs_k8s_operator.Backup.Deeds.{Deed, deeds, IsOrderly}
use pbs_k8s_operator.Reconcile.Posts.{IsLeft}
use pbs_k8s_operator.Backup.Progress.{GoesOn, reconcile-GoesOn}
use pbs_k8s_operator.Controller.{NameHash, job_name}
use pbs_k8s_operator.Controller.Laws.{job_name-le}
use pbs_k8s_operator.Backup.Order.{reconcile-IsOrderly}

abbrev backup_in : BackupPhase → PbsBackup
backup_in phase = record {
  meta = new_meta "nightly" "team" [];
  spec = record { repo_ref = "store"; pvcs = []; selector = none; notes = "" };
  status = record {
    phase = phase;
    snapshot_ref = "";
    jobs = [];
    started_at = none;
    completed_at = none;
    bytes = 0;
    conditions = [];
  };
}

abbrev store : PbsRepo
store = record {
  meta = new_meta "store" "" [];
  spec = record {
    host = "";
    port = pos 0;
    datastore = "";
    namespace = "";
    fingerprint = "";
    secret_ref = record { name = "creds"; namespace = "ops" };
    bootstrap_token_ref = record { name = ""; namespace = "" };
  };
  status = record { conditions = []; last_probe_time = none };
}

abbrev data_claim : PersistentVolumeClaim
data_claim = record { meta = new_meta "data" "team" []; volume_name = "pv-1" }

abbrev db_pod : Pod
db_pod = record {
  meta = record (new_meta "db-0" "team" []) {
    annotations = ("pbs.backup/pre-hook-command", "dump") ∷ [];
  };
  spec = record {
    hostname = "";
    restart_policy = "";
    service_account = "";
    affinity = none;
    containers =
        record {
          name = "postgres";
          image = "";
          command = [];
          env = [];
          mounts = [];
          pull_policy = "";
        }
        ∷ [];
    volumes = record { name = "data"; source = claim "data" false } ∷ [];
    node_name = "node-1";
  };
  statuses = [];
}

abbrev ends : Env ℕ
ends = record {
  list_pods = λ ns name w. (answer [], w);
  patch_status = λ st w. (answer tt, w);
  event = λ warning reason message w. (tt, w);
  metric = λ c w. (tt, w);
  has_metrics = false;
  now = λ w. (w, w);
  unmarshal = λ s. none;
  quote = λ s. s;
  status_eq = λ a b. false;
  conditions = record {
    set_status_condition = λ cs c. (c ∷ [], true);
    is_status_condition_true = λ cs k. true;
  };
}

-- A cluster with one claim and one pod that mounts it, in which no Job is there.
abbrev cluster_with : BackupPhase → Cluster ℕ
cluster_with phase = record {
  get_backup = λ w. (got (backup_in phase), w);
  get_repo = λ name w. (got store, w);
  secrets = record {
    get_secret = λ ns name w. (
      if ns == "ops" then got (record { meta = new_meta name ns []; bytes = [] }) else not_found,
      w,
    );
    create_secret = λ s w. (made, w);
    update_secret = λ s w. (answer tt, w);
    pod_namespace = "";
  };
  get_pvc = λ ns name w. (not_found, w);
  list_pvcs = λ ns selector w. (answer (data_claim ∷ []), w);
  as_selector = λ s. answer s;
  get_pv = λ name w. (got (record { meta = new_meta name "" []; affinity = none }), w);
  list_namespace_pods = λ ns w. (answer (db_pod ∷ []), w);
  list_nodes = λ w. (answer ("node-1" ∷ []), w);
  serialize = none;
  get_config_map = λ ns name w. (not_found, w);
  create_config_map = λ cm w. (made, w);
  update_config_map = λ cm w. (answer tt, w);
  unmarshal_argv = λ s. argv (s ∷ []);
  hook_executor = some (λ pod container command w. (answer tt, w));
  get_job = λ ns name w. (not_found, w);
  create_job = λ job w. (made, w);
  no_job = λ name. name;
  name_hash = record { fnv32a = λ s. 0; hex08 = λ n. "00000000" };
  image = "";
  ends = ends;
}

abbrev start : Run ℕ Call
start = record { world = 0; log = [] }

reconcile-IsOrderly_example :
    (xs : List Deed) × (view deeds (reconcile (cluster_with new) start).1.log ≡ view deeds [] ++ xs)
    × IsOrderly (cluster_with new) (backup_in new) xs
reconcile-IsOrderly_example = reconcile-IsOrderly (cluster_with new) (backup_in new) start 0 refl

reconcile-GoesOn_example :
    IsLeft GoesOn (reconcile (cluster_with new) start).0 (reconcile (cluster_with new) start).1.log
reconcile-GoesOn_example =
    reconcile-GoesOn (cluster_with new) (λ a b e. absurd (cc e)) (backup_in new) refl start 0 refl

abbrev zeros : NameHash
zeros = record { fnv32a = λ s. 0; hex08 = λ n. "00000000" }

job_name-le_example :
    len
      (job_name zeros "a-backup-with-a-name-that-is-long" "a-node-with-a-name-that-is-long-as-well")
    ≤ 63
job_name-le_example =
    job_name-le zeros "a-backup-with-a-name-that-is-long" "a-node-with-a-name-that-is-long-as-well"
      (λ n. refl)

place_all-Partitions_example :
    Returns
      (Partitions (cluster_with new) (db_pod ∷ []) (data_claim ∷ []))
      (place_all (cluster_with new) (db_pod ∷ []) (data_claim ∷ []) [])
place_all-Partitions_example =
    place_all-Partitions (cluster_with new) (db_pod ∷ []) (data_claim ∷ [])
