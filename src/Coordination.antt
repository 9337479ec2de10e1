-- ===== src/Coordination.antt =====
-- src/coordination.rs: a plan of assignments, interventions and holds from the analysis of a snapshot.
pub mod Data
pub mod Tasks
pub mod Select
pub mod Plan
pub mod Queues
pub mod Rounds
pub mod Fair
pub mod Chosen
pub mod Accounts
pub mod Ready
pub mod Build
pub mod Done
mod Tests
