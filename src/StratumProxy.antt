-- ===== src/StratumProxy.antt =====
-- crates/stratum-proxy: the shares of the miners.
pub mod Jobs
pub mod Share
pub mod Vardiff
pub mod Session
