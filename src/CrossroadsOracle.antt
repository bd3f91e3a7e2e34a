-- ===== src/CrossroadsOracle.antt =====
-- crates/crossroads-oracle: the blocks of other chains that the pool's enclave vouches for.
pub mod Source
pub mod Ssrf
pub mod Server
