-- ===== src/PpsRate.antt =====
-- crates/pps-rate: the network difficulty that the rate of the pool rests on.
pub mod Quorum
