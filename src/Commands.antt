-- ===== src/Commands.antt =====
-- internal/discordhttp: the commands that Discord users give, over the stored tables.
pub mod Desk
pub mod Format
pub mod Jobs
pub mod Searches
pub mod Buscar
pub mod Accounts
pub mod Microsoft
pub mod Views
pub mod Policy
pub mod Dispatch
mod Examples
