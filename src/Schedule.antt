-- ===== src/Schedule.antt =====
-- internal/controller/pbsschedule_controller.go: cron schedules that create backups.
pub mod Slots
pub mod Reconciler
pub mod Laws
pub mod Requeue
