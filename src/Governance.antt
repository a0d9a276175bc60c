-- ===== src/Governance.antt =====
-- core/blockchain/src/governance: proposals of the subnets, votes by stake, tallies and execution.
mod Data
mod Governor
pub mod Votes
pub mod Outcomes
mod Tests
pub use Data.*
unfoldable pub use Governor.*
