-- ===== src/Usage.antt =====
-- internal/usage: usage evidence, its freshness, the collection schedule and the profile ranking.
pub mod Types
pub mod Schedule
pub mod Finalize
pub mod Retention
pub mod Capacity
pub mod Ranking
pub mod Combine
pub mod View
pub mod Flights
