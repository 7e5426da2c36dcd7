-- ===== src/Continuation.antt =====
-- internal/continuation and internal/store/continuation.go: the checkpoints of Safe Continuation,
-- from their capture to the handoff.
pub mod Records
pub mod Retention
pub mod Text
pub mod Store
pub mod Review
pub mod Service
pub mod Capture
pub mod Finalize
pub mod Soundness
pub mod Clearing
pub mod Traces
pub mod Source
pub mod Handoff
pub mod Approval
pub mod Expiry
pub mod Redaction
pub mod Settings
pub mod History
pub mod Runs
mod Examples
