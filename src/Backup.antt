-- ===== src/Backup.antt =====
-- internal/controller/pbsbackup_controller.go: the reconcile of a backup, and its status.
pub mod Results
pub mod Outcome
pub mod Cluster
pub mod Groups
pub mod GroupLaws
pub mod PlacementLaws
pub mod Launch
pub mod Reconciler
pub mod Phases
pub mod Readings
pub mod Accounts
pub mod Quiet
pub mod Deeds
pub mod LaunchLaws
pub mod Order
pub mod Progress
