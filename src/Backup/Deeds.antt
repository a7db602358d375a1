-- ===== src/Backup/Deeds.antt =====
-- What of a reconcile of a backup is seen, and in which order.
use pbs_k8s_operator.Base.{ℕ, ◌≤◌, String, true, false, List, [], ◌∷◌, ◌≡◌, refl, All, arith}
use pbs_k8s_operator.Kube.{Pod, Job}
use pbs_k8s_operator.Types.{
  PbsBackup, BackupPhase, new, scheduled, running, completed, failed, is_terminal,
}
use pbs_k8s_operator.Controller.{job_name}
use pbs_k8s_operator.Reconcile.Sequence.{Then}
use pbs_k8s_operator.Backup.Results.{Call, patch_status, exec, create_job}
use pbs_k8s_operator.Backup.Outcome.{held_phase}
use pbs_k8s_operator.Backup.Cluster.{Cluster}
use pbs_k8s_operator.Backup.Groups.{Groups}
use pbs_k8s_operator.Backup.Launch.{node_job, is_known}
use pbs_k8s_operator.Backup.Reconciler.{no_elements}
use pbs_k8s_operator.Backup.Phases.{Sees}

-- What of a reconcile is seen: the hooks that are run, the Jobs created, the phases recorded.
pub data Deed : Type 0 where
  hook_run : Pod → Deed
  job_created : Job → Deed
  phase_recorded : BackupPhase → Deed

abbrev pub deeds : Call → List Deed
deeds (exec pod container command) = hook_run pod ∷ []
deeds (create_job job) = job_created job ∷ []
deeds (patch_status st) = phase_recorded st.phase ∷ []
deeds _ = []

-- The phases in the order in which a backup goes through them; the last two are final.
abbrev pub rank : BackupPhase → ℕ
rank new = 0
rank scheduled = 1
rank running = 2
rank completed = 3
rank failed = 3

pub deeds-Sees : Sees deeds phase_recorded
deeds-Sees = record {
  on_status = λ st. refl;
  on_event = λ w r t. refl;
  on_success = λ n. refl;
  on_duration = λ m n. refl;
  on_error = refl;
}

pub rank-final : (p : BackupPhase) → rank p ≤ 3
rank-final new = omega arith
rank-final scheduled = omega arith
rank-final running = omega arith
rank-final completed = omega arith
rank-final failed = omega arith

pub rank-held_phase : (p : BackupPhase) → is_terminal p ≡ false → rank p ≤ rank (held_phase p)
rank-held_phase new e = omega arith
rank-held_phase scheduled e = omega arith
rank-held_phase running e = omega arith
rank-held_phase completed e = ground (arith, e)
rank-held_phase failed e = ground (arith, e)

pub rank-running : (p : BackupPhase) → is_terminal p ≡ false → rank p ≤ 2
rank-running new e = omega arith
rank-running scheduled e = omega arith
rank-running running e = omega arith
rank-running completed e = ground (arith, e)
rank-running failed e = ground (arith, e)

module _ {W : Type 0} (cluster : Cluster W) (b : PbsBackup) where
  -- A hook, of a backup whose status has no Jobs.
  pub data IsHookRun : Deed → Type 0 where
    first_run : (pod : Pod) → no_elements b.status.jobs ≡ true → IsHookRun (hook_run pod)

  -- The Job of a node, where the status does not know it.
  pub data IsLaunch : Deed → Type 0 where
    unknown :
        (sec staging : String) (groups : Groups) (node : String)
        → is_known b.status.jobs (job_name cluster.name_hash b.meta.name node) ≡ false
        → IsLaunch (job_created (node_job cluster b sec staging groups node))

  -- A phase that is not behind the backup's.
  pub data IsAdvance : Deed → Type 0 where
    forward : (q : BackupPhase) → rank b.status.phase ≤ rank q → IsAdvance (phase_recorded q)

  -- First the hooks, then the Jobs, then the phases.
  abbrev pub IsOrderly : List Deed → Type 0
  IsOrderly = Then (All IsHookRun) (Then (All IsLaunch) (All IsAdvance))
