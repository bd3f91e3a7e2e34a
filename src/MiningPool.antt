-- ===== src/MiningPool.antt =====
-- crates/mining-pool: what the pool's process does before it starts its parts.
pub mod SingleActive
pub mod Bech32
