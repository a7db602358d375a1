-- ===== src/Agent.antt =====
-- internal/agent: the process that runs in the Jobs' pods.
pub mod Flags
pub mod Args
pub mod Env
pub mod Contract
pub mod Csv
pub mod RestoreContract
pub mod Process
pub mod Backup
pub mod Apply
pub mod Reports
pub mod Commands
pub mod BackupLaws
pub mod ApplyLaws
pub mod Main
pub mod MainLaws
pub mod Newest
