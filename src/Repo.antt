-- ===== src/Repo.antt =====
-- internal/controller/pbsrepo_controller.go: the credentials of a PBS server and its health.
pub mod Creds
pub mod Reconciler
pub mod CredsLaws
pub mod Laws
