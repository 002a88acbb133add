-- ===== src/Dashboard.antt =====
-- internal/dashboard/snapshot.go: what the dashboard shows of the accounts and their jobs.
pub mod Labels
pub mod History
pub mod Snapshot
mod Examples
