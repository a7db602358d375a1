-- ===== src/Snapshots.antt =====
-- internal/backup/snapshotref.go: the reference of a snapshot, and the newest of a backup group.
-- The times are 64-bit floats: their type, their order and the text of an instant are parameters.
pub mod Laws
use pbs_k8s_operator.Base.{
  ℕ, String, Bool, true, false, not, ◌&&◌, ◌||◌, Option, none, some, List, [], ◌∷◌, ◌==◌,
  if◌then◌else◌,
}
use pbs_k8s_operator.Base.Text.{◌+++◌}

-- internal/pbs/snapshots.go: `Snapshot`.
pub record Snapshot (F : Type 0) : Type 0 where
  pub backup_type : String
  pub backup_id : String
  pub backup_time : F
  pub size : ℕ

-- What the code uses of float64 and of package time.
pub record Clock (F : Type 0) : Type 0 where
  pub gt : F → F → Bool  -- `a > b`
  pub iso : F → String  -- `time.Unix(int64(t), 0).UTC().Format(time.RFC3339)`

module _ {F : Type 0} (clock : Clock F) where
  unfoldable pub compose_snapshot_ref : String → String → F → String
  compose_snapshot_ref backup_type backup_id time =
      backup_type +++ "/" +++ backup_id +++ "/" +++ clock.iso time

  unfoldable pub in_group : String → String → Snapshot F → Bool
  in_group backup_type backup_id s = s.backup_type == backup_type && s.backup_id == backup_id

  -- The loop; `best` is none while nothing is found.
  unfoldable pub latest_from :
      String → String → Option (Snapshot F) → List (Snapshot F) → Option (Snapshot F)
  latest_from backup_type backup_id best [] = best
  latest_from backup_type backup_id best (s ∷ snaps) =
      latest_from backup_type backup_id
        (if not (in_group backup_type backup_id s) then best else elim best [
          | none ↦ some s
          | some b ↦ if clock.gt s.backup_time b.backup_time then some s else some b
        ])
        snaps

  -- `none` is the error "no snapshots in group".
  unfoldable pub latest_snapshot : List (Snapshot F) → String → String → Option (Snapshot F)
  latest_snapshot snaps backup_type backup_id = latest_from backup_type backup_id none snaps
