-- ===== src/Store.antt =====
-- src/store.rs: the bounded projections of agents, goals, tasks, lessons and recent events, the
-- reducer that an accepted event goes through, and what readers are shown.
pub mod State
pub mod Tasks
pub mod Writes
pub mod Reducer
pub mod New
pub mod Ingest
pub mod Run
pub mod Fresh
pub mod Opens
pub mod Stale
pub mod Sample
mod Tests
pub mod Log
pub mod Broadcast
pub mod Eviction
pub mod Counters
