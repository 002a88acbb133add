-- ===== src/Scheduler.antt =====
-- internal/scheduler: polls the active jobs, one at a time for each account, and records and
-- announces what they found.
pub mod Types
pub mod Backoff
pub mod Ports
pub mod Payload
pub mod Outcomes
pub mod Schedule
pub mod Threads
pub mod Running
mod Examples
