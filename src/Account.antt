-- ===== src/Account.antt =====
-- core/blockchain/src/account: account records and the staking operations on one account.
mod Data
mod Operations
pub mod Stake
mod Tests
pub use Data.*
unfoldable pub use Operations.*
