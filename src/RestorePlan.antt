-- ===== src/RestorePlan.antt =====
-- internal/backup/restore_plan.go: how an archived api.yaml becomes the documents to apply.
pub mod Clean
pub mod CleanLaws
pub mod Parse
pub mod ParseLaws
pub mod Buckets
pub mod BucketLaws
pub mod Nodes
