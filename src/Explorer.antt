-- ===== src/Explorer.antt =====
-- src/explorer.rs: the view of a snapshot by agents, sessions, lessons and the latest events.
pub mod Data
pub mod Build
pub mod Sessions
pub mod Views
mod Tests
