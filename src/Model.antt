-- ===== src/Model.antt =====
-- src/model.rs: the protocol's event envelope, and the operations that every transport reads.
mod Payload
pub mod Numbers
pub mod Validation
pub mod Spec
pub mod Checks
pub mod Accepts
pub mod Policy
mod Tests
unfoldable pub use Payload.*
unfoldable pub use Numbers.*
