-- ===== src/Types.antt =====
-- api/v1: the custom resources, as pbsbackup_types.go, pbsrestore_types.go, pbsrepo_types.go and
-- pbsschedule_types.go declare them. A time is its number of nanoseconds.
use pbs_k8s_operator.Base.Integers.{ℤ}
use pbs_k8s_operator.Base.{ℕ, String, Bool, true, false, Option, List}
use pbs_k8s_operator.Kube.{ObjectMeta, Condition}

pub data BackupPhase : Type 0 where
  new scheduled running completed failed : BackupPhase

abbrev pub is_terminal : BackupPhase → Bool
is_terminal completed = true
is_terminal failed = true
is_terminal _ = false

pub record PbsBackupSpec : Type 0 where
  pub repo_ref : String
  pub pvcs : List String
  pub selector : Option String  -- a metav1.LabelSelector, which the code hands on
  pub notes : String

pub record BackupJobStatus : Type 0 where
  pub node : String
  pub job : String
  pub state : String

pub record PbsBackupStatus : Type 0 where
  pub phase : BackupPhase
  pub snapshot_ref : String
  pub jobs : List BackupJobStatus
  pub started_at : Option ℕ
  pub completed_at : Option ℕ
  pub bytes : ℕ
  pub conditions : List Condition

pub record PbsBackup : Type 0 where
  pub meta : ObjectMeta
  pub spec : PbsBackupSpec
  pub status : PbsBackupStatus

pub data RestorePhase : Type 0 where
  new staging_api restoring_volumes applying_workloads completed failed : RestorePhase

pub record PbsRestoreSpec : Type 0 where
  pub repo_ref : String
  pub snapshot_ref : String
  pub target_namespace : String
  pub drop_kinds : List String
  pub keep_kinds : List String

pub record RestoreJobStatus : Type 0 where
  pub phase : RestorePhase
  pub job : String
  pub state : String

pub record PbsRestoreStatus : Type 0 where
  pub phase : RestorePhase
  pub conditions : List Condition
  pub started_at : Option ℕ
  pub completed_at : Option ℕ
  pub jobs : List RestoreJobStatus

pub record PbsRestore : Type 0 where
  pub meta : ObjectMeta
  pub spec : PbsRestoreSpec
  pub status : PbsRestoreStatus

pub record NamespacedSecretRef : Type 0 where
  pub name : String
  pub namespace : String

pub record PbsRepoSpec : Type 0 where
  pub host : String
  pub port : ℤ
  pub datastore : String
  pub namespace : String
  pub fingerprint : String
  pub secret_ref : NamespacedSecretRef
  pub bootstrap_token_ref : NamespacedSecretRef

pub record PbsRepoStatus : Type 0 where
  pub conditions : List Condition
  pub last_probe_time : Option ℕ

pub record PbsRepo : Type 0 where
  pub meta : ObjectMeta
  pub spec : PbsRepoSpec
  pub status : PbsRepoStatus

pub record PbsBackupTemplate : Type 0 where
  pub pvcs : List String
  pub selector : Option String
  pub notes : String

pub record PbsScheduleSpec : Type 0 where
  pub repo_ref : String
  pub schedule : String
  pub template : PbsBackupTemplate
  pub suspend : Bool

pub record PbsScheduleStatus : Type 0 where
  pub last_schedule_time : Option ℕ
  pub next_schedule_time : Option ℕ
  pub active : List String
  pub conditions : List Condition

pub record PbsSchedule : Type 0 where
  pub meta : ObjectMeta
  pub spec : PbsScheduleSpec
  pub status : PbsScheduleStatus
