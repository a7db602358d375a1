-- ===== src/Restore.antt =====
-- internal/controller/pbsrestore_controller.go: the Jobs of a restore, its phases and its reconcile.
pub mod Status
pub mod Steps
pub mod Phases
pub mod Laws
pub mod SpecLaws
pub mod Access
pub mod Pipeline
pub mod Volumes
pub mod Progress
pub mod Evidence
pub mod Ensure
pub mod Quiet
pub mod OneStep
pub mod Order
