-- ===== src/Contracts.antt =====
-- contracts/src: the Solidity contracts that the pool's crates read and write.
pub mod MiningPoolToken
