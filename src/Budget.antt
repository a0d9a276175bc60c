-- ===== src/Budget.antt =====
-- core/blockchain/src/budget: spending limits that a delegator grants to an agent.
mod Data
mod Manager
mod History
pub mod Writes
pub mod Limits
pub mod Ends
pub mod Indices
mod Tests
pub use Data.*
unfoldable pub use Manager.*
unfoldable pub use History.*
