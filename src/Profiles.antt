-- ===== src/Profiles.antt =====
-- internal/store/profile_lifecycle.go, internal/store/profiles.go and internal/profile/lifecycle.go:
-- the removal of an identity profile, its quarantine, its return and its purge.
pub mod Records
pub mod Removal
pub mod Live
pub mod Steps
pub mod Invariant
pub mod Soundness
pub mod Beginning
pub mod Leaving
pub mod Traces
pub mod Lifecycle
pub mod Begun
pub mod Undo
pub mod Return
mod Examples
