-- ===== src/RedemptionWatcher/NoDoublePay.antt =====
-- No redemption is paid twice by crates/redemption-watcher/src/payouts.rs.
pub mod Safe
pub mod Guards
pub mod Entry
pub mod Drain
