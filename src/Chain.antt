-- ===== src/Chain.antt =====
-- core/blockchain/src/blockchain: the chain of `chain.rs` and `execution.rs`. The children named
-- first model it, the others prove its properties.
mod Data
mod State
mod Making
mod Execute
mod Produce
mod Supply
pub mod Conservation
pub mod Blocks
pub mod Blockmaking
pub mod Selection
pub mod Issue
pub mod Flaws
mod Tests
mod BlockTests
pub use Data.*
unfoldable pub use State.*
unfoldable pub use Making.*
unfoldable pub use Execute.*
unfoldable pub use Produce.*
unfoldable pub use Supply.*
