-- ===== src/Entra.antt =====
-- internal/entra: a Microsoft session for each user.
pub mod Session
mod Examples
