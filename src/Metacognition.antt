-- ===== src/Metacognition.antt =====
-- src/metacognition.rs and src/metacognition/: what the retained tasks and goals say about how the
-- work goes on.
pub mod Data
pub mod Lookup
pub mod Cycles
pub mod Walks
pub mod Search
pub mod Members
pub mod Unseen
pub mod Depth
pub mod Depths
pub mod Outside
pub mod Facts
pub mod Findings
pub mod Events
pub mod Analysis
pub mod Sums
pub mod Sample
mod Tests
