-- ===== src/Tests/Jobs.antt =====
-- Runs of the Jobs, the placement, the snapshots and the agent's arguments.
use pbs_k8s_operator.Base.{Distinct, ℕ, true, false, none, List, [], ◌∷◌, ◌≡◌, map, ltb, arith}
use pbs_k8s_operator.Base.Text.Decimal.{decimal}
use pbs_k8s_operator.Kube.{new_meta, PersistentVolumeClaim}
use pbs_k8s_operator.JobSpec.{BackupJobSpec, backup_volumes, backup_mounts}
use pbs_k8s_operator.JobSpec.Laws.{names-build_backup_job}
use pbs_k8s_operator.Placement.{resolve_node}
use pbs_k8s_operator.Placement.Laws.{Resolution, resolve_node-Resolution}
use pbs_k8s_operator.Snapshots.{Snapshot, Clock, latest_snapshot}
use pbs_k8s_operator.Snapshots.Laws.{IsStrict, Answer, latest_snapshot-Answer}

abbrev backup_spec : BackupJobSpec
backup_spec = record {
  name = "nightly-node-1";
  namespace = "team";
  node = "node-1";
  repo_secret = "nightly-repo";
  pvcs = "data" ∷ "logs" ∷ [];
  staging_config_map = "nightly-api";
  notes = "";
  image = "agent:1";
  service_account = "agent";
}

names-build_backup_job_example :
    (map (λ v. v.name) (backup_volumes backup_spec) ≡ map (λ m. m.name) (backup_mounts backup_spec))
    × Distinct (map (λ v. v.name) (backup_volumes backup_spec))
names-build_backup_job_example = names-build_backup_job backup_spec

abbrev claim : PersistentVolumeClaim
claim = record { meta = new_meta "data" "team" []; volume_name = "pv-1" }

resolve_node-Resolution_example : Resolution claim none [] (resolve_node claim none [])
resolve_node-Resolution_example = resolve_node-Resolution claim none []

abbrev pub seconds : Clock ℕ
seconds = record { gt = λ a b. ltb b a; iso = λ n. decimal n }

gt_irrefl : (a : ℕ) → ltb a a ≡ false
gt_irrefl a = ground arith

gt_trans : (a b c : ℕ) → ltb b a ≡ true → ltb c b ≡ true → ltb c a ≡ true
gt_trans a b c h k = ground arith

pub strict : IsStrict seconds
strict = record { irrefl = gt_irrefl; trans = gt_trans }

abbrev snapshots : List (Snapshot ℕ)
snapshots =
    record { backup_type = "host"; backup_id = "team"; backup_time = 5; size = 1 }
    ∷ record { backup_type = "host"; backup_id = "other"; backup_time = 9; size = 1 }
    ∷ record { backup_type = "host"; backup_id = "team"; backup_time = 7; size = 1 }
    ∷ []

latest_snapshot-Answer_example :
    Answer seconds strict "host" "team" snapshots (latest_snapshot seconds snapshots "host" "team")
latest_snapshot-Answer_example = latest_snapshot-Answer seconds strict "host" "team" snapshots
