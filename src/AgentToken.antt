-- ===== src/AgentToken.antt =====
-- core/blockchain/src/agent_token: tokens of agents, sold along a bonding curve. Curve models
-- `curve.rs`, Factory `factory.rs` and `types.rs`.
pub mod Curve
pub mod Root
pub mod Search
pub mod Prices
pub mod Factory
pub mod Holders
mod Tests
