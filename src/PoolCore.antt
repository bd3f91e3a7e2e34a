-- ===== src/PoolCore.antt =====
-- crates/pool-core: the types and pure functions that the other crates share.
pub mod Lua
pub mod Redemption
pub mod Store
pub mod Stratum
pub mod Voucher
