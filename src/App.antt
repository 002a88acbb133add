-- ===== src/App.antt =====
-- internal/app: the messages that a vacancy's notification is cut into, what has been delivered of
-- them, and the poll of a job.
pub mod Split
pub mod Messages
pub mod Notifier
pub mod Polls
pub mod Wakes
mod Examples
