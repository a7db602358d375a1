-- ===== src/Lib.antt =====
-- pbs-operator: a Kubernetes operator that backs up namespaces to a Proxmox Backup Server and
-- restores them.
--
-- The program has controllers, which reconcile four custom resources, and an agent, which runs in
-- the pods of the Jobs that the controllers create. A schedule creates backups; a backup places its
-- claims on nodes and creates one Job for each node; a restore creates Jobs that fetch the manifest,
-- apply it, fill the volumes and apply the workloads. The Jobs' command lines and environment are
-- the contract between the controllers and the agent.
--
-- The files and the code that they are about:
--   Types          api/v1: the custom resources
--   Kube           the fields used of the objects of k8s.io/api and k8s.io/apimachinery
--   Value          the values that YAML and JSON documents decode to, Go's `map[string]any`
--   RestorePlan    internal/backup/restore_plan.go: Parse is `ParseAPIManifests`, Clean the two
--                  strips, Buckets `BucketDocs` and `PVCsFromDocs`, Nodes `NodeForPVC`
--   Placement      internal/backup/placement.go: `ResolveNode`
--   Snapshots      internal/backup/snapshotref.go
--   JobSpec        internal/backup/job.go: `BuildBackupJob` and what the builders share
--   RestoreJobs    internal/backup/job.go: the builders of the restore's Jobs
--   Controller     what the backup and restore controllers share: names of Jobs, the agent's image
--   RepoSecret     internal/controller/pbsbackup_controller.go: the copied secret's contract; Copy is
--                  `ensureRepoSecret` of both controllers, Writes what it writes
--   Agent          internal/agent/backup.go and restore.go: the arguments, the environment and the
--                  client's command lines; Flags is what they use of package flag; Process is a
--                  process with its calls, Backup `RunBackup`, Apply `RunRestoreVolume` and
--                  `RunApplyManifests`, Main the `main` of cmd/agent/main.go
--   Reconcile      the shape of a reconciler: a run over a world with a log of requests; Effects,
--                  Brings, Returns, Sequence, Posts and Progress are its proof rules
--   Schedule       internal/controller/pbsschedule_controller.go: Slots is the choice of the slot,
--                  Reconciler the whole `Reconcile` with its helpers
--   Repo           internal/controller/pbsrepo_controller.go: Creds is the choice of credentials,
--                  Reconciler the whole `Reconcile` with its helpers
--   Restore        internal/controller/pbsrestore_controller.go: Status is the bookkeeping of Jobs,
--                  Steps `ensureJob`, `liveJobs`, `recordRestore` and the ways a reconcile ends,
--                  Access the requests for the repository, Pipeline the whole `Reconcile`
--   Backup         internal/controller/pbsbackup_controller.go: Results is `jobResult`, Outcome
--                  `recordOutcome` and the ways a reconcile ends, Cluster the requests for claims and
--                  pods, Groups the claims by node, Launch the making of Jobs, Reconciler the whole
--                  `Reconcile`; an int64 is a residue modulo 2 ^ 64
--   Pbs            internal/pbs: `do`, `EnsureNamespace`, `ListSnapshots` and `WaitTask`; Fingerprint is
--                  `verifyFingerprint`
--   Hooks          internal/hooks/exec.go: `ParseHook`; Exec is `Exec`
--   Serialize      internal/backup/serialize.go: `stripVolatile` and `hasVerb`; Namespace is
--                  `SerializeNamespace`, Collect what it is to collect
--   Manager        cmd/main.go: the options of the manager, and `main` from the flags on; a panic ends
--                  the process with 2
--   Base           shared helpers; Base.Text has the functions of Go's strings and bytes
--   Tests          runs on concrete inputs
--
-- State and errors: a Go struct is a record, a Go error a constructor of a result type, and a
-- reconciler an action over a world that the model leaves arbitrary, so that what the API server,
-- the PBS server and the clock answer is arbitrary too. The requests that change something are
-- logged in order. A time is its number of nanoseconds. `SetControllerReference` is taken to succeed
-- except in `adoptConfigMap`, where the code foresees its refusal. A process of the agent is an action
-- of the same kind, whose log holds the command lines that it runs and the reports that it leaves.
--
-- Code that is not in the repository is a parameter: the YAML libraries, the cron library, float64
-- and the formatting of times, `strconv.Atoi` and `strconv.Quote`, `SetStatusCondition`,
-- `reflect.DeepEqual`, the FNV hash with its format, the JSON text of a report, SHA-256 and
-- the connections to the servers. Where a theorem relies on them, its hypotheses say what of them.
--
-- Loops are structural recursion, except for the catch-up loop of a schedule and the polls of
-- `WaitTask`, which run on fuel. The catch-up loop has one more than the present time in nanoseconds; it
-- is enough where each slot is later than the time that it was asked for, since each round then moves
-- on by at least one. `WaitTask` is bounded by its context; a fuel of one more than the
-- intervals that are left of it is enough.
--
-- Not modelled: the registration of types, the `SetupWithManager` of the controllers, which says what
-- they watch, the definition of the metrics, and the generated code. A line of the log is its message,
-- without its keys.
pub mod Base
pub mod Value
pub mod RestorePlan
pub mod Kube
pub mod Pbs
pub mod Placement
pub mod Controller
pub mod Snapshots
pub mod JobSpec
pub mod RestoreJobs
pub mod RepoSecret
pub mod Agent
pub mod Types
pub mod Reconcile
pub mod Schedule
pub mod Repo
pub mod Restore
pub mod Serialize
pub mod Backup
pub mod Hooks
pub mod Manager
pub mod Tests
