-- ===== src/Tests.antt =====
-- Runs of the models on concrete inputs.
mod Plan
mod Jobs
mod Schedules
mod Repos
mod Restores
mod Backups
mod Reconciles
mod Restoring
mod Agents
mod Waiting
mod Managers
mod Archives
