-- ===== src/ComputeMarket.antt =====
-- core/blockchain/src/compute_market: providers, jobs with an escrow, and disputes. Data models
-- `types.rs`, with types/compute.rs; Providers, Jobs and Disputes model the files of these names.
pub mod Data
pub mod Providers
pub mod Jobs
pub mod Disputes
pub mod History
pub mod Status
pub mod Steps
pub mod Diagram
pub mod Escrow
pub mod Flaws
mod Tests
