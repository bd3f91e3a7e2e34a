-- ===== src/RedemptionWatcher.antt =====
-- crates/redemption-watcher: redemptions from the L2 to Monero payouts.
pub mod Wallet
pub mod ProRata
pub mod World
pub mod Calls
pub mod Guards
pub mod Pay
pub mod Payouts
pub mod Preserves
pub mod Leads
pub mod FeeSwap
pub mod Events
pub mod NoDoublePay
pub mod PaysOut
