-- ===== src/Launch.antt =====
-- internal/store/launches.go and internal/launch/protocol.go: managed launches and the handoff of a
-- checkpoint to one of them.
pub mod Records
pub mod Prepare
pub mod Marks
pub mod Counts
pub mod Invariant
pub mod Moves
pub mod Soundness
pub mod Handoff
pub mod Reconcile
pub mod Traces
mod Examples
