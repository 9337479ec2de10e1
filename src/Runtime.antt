-- ===== src/Runtime.antt =====
-- src/runtime/: hooks that agents report about themselves, control commands that they fetch and
-- acknowledge, and the processes that the monitor samples.
pub mod Data
pub mod Validation
pub mod Accepts
pub mod Monitor
pub mod Run
pub mod Sampling
pub mod Tidy
pub mod Window
pub mod Agents
pub mod Commands
pub mod Lifecycle
pub mod Rows
pub mod Snapshot
pub mod Keyed
pub mod Shown
pub mod Sums
mod Tests
