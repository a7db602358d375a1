-- ===== src/Agent/BackupLaws.antt =====
-- How a run of the agent's backup ends.
use pbs_k8s_operator.Base.{ℕ, String, Option, none, some, List, [], ◌∷◌, ◌++◌, refl, arith}
use pbs_k8s_operator.Base.Text.{is_empty}
use pbs_k8s_operator.Reconcile.{M}
use pbs_k8s_operator.Reconcile.Sequence.{Gives-if}
use pbs_k8s_operator.Snapshots.{Snapshot, Clock, latest_snapshot}
use pbs_k8s_operator.Agent.Env.{Config, load_config, client_env, notes_argv}
use pbs_k8s_operator.Agent.Process.{Os, Call, exit_code}
use pbs_k8s_operator.Agent.Backup.{
  Decoder, parse_snapshot_list, snapshot_ref, attach_notes, on_latest, report_snapshot, upload,
  with_config, run_backup,
}
use pbs_k8s_operator.Agent.Reports.{
  Silent, Silent-ask, Silent-pure, after-Silent, after_send, on_run_of, Reporting, say-Silent,
  fail-Reporting, succeed-Reporting, on_answer-Gives, temp_file-Silent,
}
use pbs_k8s_operator.Agent.Commands.{FailsAloud, run-Gives, on_run-Gives, removed-Reporting}

module _ {W F : Type 0} (os : Os W) (clock : Clock F) (decoder : Decoder F) where
  pub attach_notes-Silent :
      (c : Config) (env : List String) (snap : Snapshot F) (notes : String)
      → Silent (attach_notes os clock decoder c env snap notes)
  unfolding attach_notes
  attach_notes-Silent c env snap notes =
      Gives-if (is_empty notes) _ _ (λ _. Silent-pure tt)
        λ _.
          after_send _ (os.run (notes_argv c.ns (snapshot_ref os clock decoder snap) notes) env) _
            refl
            λ r from. on_run_of os r r.failure _ _ refl (λ e. say-Silent os _) λ w. Silent-pure tt

module _ {W F : Type 0} (os : Os W) (aloud : FailsAloud os) (clock : Clock F)
    (decoder : Decoder F) where
  on_latest-Reporting :
      (path host : String) (o : Option (Snapshot F)) (k : Snapshot F → M W Call ℕ)
      → ((snap : Snapshot F) → Reporting os (k snap))
      → Reporting os (on_latest os clock decoder path o host k)
  on_latest-Reporting path host none k h = fail-Reporting os path 1 _ (λ e. omega (arith, e))
  on_latest-Reporting path host (some snap) k h = h snap

  report_snapshot-Reporting :
      (c : Config) (env : List String) (host notes path : String)
      → Reporting os (report_snapshot os clock decoder c env host notes path)
  unfolding report_snapshot
  report_snapshot-Reporting c env host notes path = run-Gives os aloud _ env _ λ r loud.
      on_run-Gives os aloud r r.failure _ _ refl loud
        (λ e n. fail-Reporting os path (exit_code e) _ n)
        (on_answer-Gives os (parse_snapshot_list decoder r.out) _ _
          (λ e. fail-Reporting os path 1 _ (λ e. omega (arith, e)))
          λ snaps. on_latest-Reporting path host (latest_snapshot clock snaps "host" host) _ λ snap.
            after-Silent _ _ (attach_notes-Silent os clock decoder c env snap notes)
              λ u. succeed-Reporting os path _ refl)

  upload-Reporting :
      (c : Config) (key host : String) (pvcs : List String) (api_dir notes path : String)
      → Reporting os (upload os clock decoder c key host pvcs api_dir notes path)
  unfolding upload
  upload-Reporting c key host pvcs api_dir notes path = run-Gives os aloud _ _ _ λ r loud.
      on_run-Gives os aloud r r.failure _ _ refl loud
        (λ e n. fail-Reporting os path (exit_code e) _ n)
        (report_snapshot-Reporting c (os.environ ++ client_env c) host notes path)

  with_config-Reporting :
      (path : String) (c : Config × List String) (k : Config → M W Call ℕ)
      → ((c : Config) → Reporting os (k c))
      → Reporting os (with_config os clock decoder path c k)
  with_config-Reporting path (c, []) k h = h c
  with_config-Reporting path (c, key ∷ keys) k h =
      fail-Reporting os path 2 _ (λ e. omega (arith, e))

  -- Where a command that fails has an exit code other than 0, a run of the agent's backup ends, and
  -- it writes just one report to the termination log: a snapshot where the process exits with 0,
  -- and an error where it exits with another code.
  pub run_backup-Reporting :
      (pvcs : List String) (api_dir notes path : String)
      → Reporting os (run_backup os clock decoder pvcs api_dir notes path)
  unfolding run_backup
  run_backup-Reporting pvcs api_dir notes path =
      with_config-Reporting path (load_config os.getenv) _ λ c.
        after-Silent _ _ (Silent-ask os.hostname) λ h.
          on_answer-Gives os h _ _ (λ e. fail-Reporting os path 1 _ (λ e. omega (arith, e)))
            λ host. after-Silent _ _ (temp_file-Silent os _ c.keyfile) λ k.
              on_answer-Gives os k _ _ (λ e. fail-Reporting os path 1 _ (λ e. omega (arith, e)))
                λ key.
                  removed-Reporting os aloud key _
                    (upload-Reporting c key host pvcs api_dir notes path)
