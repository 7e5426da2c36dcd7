-- ===== src/Alerts.antt =====
-- internal/alerts: the conditions that the usage evidence of a profile supports.
pub mod Evaluate
pub mod Supported
pub mod Complete
pub mod Rows
pub mod Deliver
mod Examples
