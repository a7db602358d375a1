-- ===== src/Agent/Backup.antt =====
-- internal/agent/backup.go: `RunBackup`, `parseSnapshotList` and `successJSON`'s content.
use pbs_k8s_operator.Base.{ℕ, String, Option, none, some, List, [], ◌∷◌, ◌++◌, if◌then◌else◌}
use pbs_k8s_operator.Base.Text.{◌+++◌, is_empty, join}
use pbs_k8s_operator.Reconcile.{Answer, answer, refused, M, pure, ask, send, ◌>>=◌, ◌>>◌}
use pbs_k8s_operator.Snapshots.{Snapshot, Clock, compose_snapshot_ref, latest_snapshot}
use pbs_k8s_operator.Agent.Env.{Config, load_config, client_env, backup_argv, list_argv, notes_argv}
use pbs_k8s_operator.Agent.Process.{
  Os, Call, run, remove, snapshot, Ran, exit_code, first_line, say, fail, succeed, on_answer,
  on_run, temp_file,
}

-- encoding/json on the client's output: as an object with `data`, and as an array.
pub record Decoder (F : Type 0) : Type 0 where
  pub envelope : String → Option (List (Snapshot F))
  pub bare : String → Answer (List (Snapshot F))

module _ {F : Type 0} (decoder : Decoder F) where
  abbrev pub bare_list : Answer (List (Snapshot F)) → Answer (List (Snapshot F))
  bare_list (refused e) = refused ("decode: not an envelope or bare array: " +++ e)
  bare_list (answer snaps) = answer snaps

  -- `parseSnapshotList`.
  unfoldable pub parse_snapshot_list : String → Answer (List (Snapshot F))
  parse_snapshot_list output = elim (decoder.envelope output) [
    | some snaps ↦ answer snaps
    | none ↦ bare_list (decoder.bare output)
  ]

module _ {W F : Type 0} (os : Os W) (clock : Clock F) (decoder : Decoder F) where
  abbrev Act : Type 0 → Type 0
  Act A = M W Call A

  -- `snapshotRef`.
  abbrev pub snapshot_ref : Snapshot F → String
  snapshot_ref s = compose_snapshot_ref clock s.backup_type s.backup_id s.backup_time

  abbrev pub run_client : List String → List String → Act Ran
  run_client argv env = send (run argv env) (os.run argv env)

  -- The notes of the new snapshot: a failure is just a warning.
  unfoldable pub attach_notes : Config → List String → Snapshot F → String → Act (Unit {0})
  attach_notes c env snap notes = if is_empty notes then pure tt else (do
    r ← run_client (notes_argv c.ns (snapshot_ref snap) notes) env
    on_run os r.failure
        (λ e. say os (
          "pbs-agent: WARNING: snapshot "
          +++ snapshot_ref snap
          +++ " uploaded, but setting notes failed: "
          +++ first_line r.errs))
        (pure tt))

  -- The newest snapshot of the host's group.
  abbrev pub on_latest : String → Option (Snapshot F) → String → (Snapshot F → Act ℕ) → Act ℕ
  on_latest path none host k =
      fail os path 1 ("snapshot list: backup: no snapshots in group host/" +++ host)
  on_latest path (some snap) host k = k snap

  -- From step 5 on.
  unfoldable pub report_snapshot : Config → List String → String → String → String → Act ℕ
  report_snapshot c env host notes path = do
    r ← run_client (list_argv c.ns) env
    on_run os r.failure (λ e. fail os path (exit_code e) (first_line r.errs))
        (on_answer os (parse_snapshot_list decoder r.out)
          (λ e. fail os path 1 ("snapshot list: " +++ e))
          λ snaps. on_latest path (latest_snapshot clock snaps "host" host) host λ snap. do
            attach_notes c env snap notes
            succeed os path (snapshot (snapshot_ref snap) snap.size))

  -- With the keyfile.
  unfoldable pub upload : Config → String → String → List String → String → String → String → Act ℕ
  upload c key host pvcs api_dir notes path =
      let env = os.environ ++ client_env c in
      do
        r ← run_client (backup_argv c.ns key pvcs api_dir) env
        on_run os r.failure (λ e. fail os path (exit_code e) (first_line r.errs))
            (report_snapshot c env host notes path)

  abbrev pub with_config : String → Config × List String → (Config → Act ℕ) → Act ℕ
  with_config path (c, []) k = k c
  with_config path (c, key ∷ keys) k =
      fail os path 2 ("missing required env: " +++ join ", " (key ∷ keys))

  -- `RunBackup`; the keyfile is removed at the end.
  unfoldable pub run_backup : List String → String → String → String → Act ℕ
  run_backup pvcs api_dir notes path = with_config path (load_config os.getenv) λ c. do
    h ← ask os.hostname
    on_answer os h (λ e. fail os path 1 ("hostname: " +++ e))
        λ host. do
          k ← temp_file os "pbs-agent-keyfile-*.json" c.keyfile
          on_answer os k (λ e. fail os path 1 ("keyfile: " +++ e))
              λ key. do
                code ← upload c key host pvcs api_dir notes path
                send (remove key) (os.remove key)
                pure code
