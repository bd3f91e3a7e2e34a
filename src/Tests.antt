-- ===== src/Tests.antt =====
-- Runs of the models on concrete data.
pub mod Payouts
pub mod Vouchers
pub mod Redemptions
pub mod Shares
pub mod Verification
pub mod Sessions
pub mod Instances
pub mod Rates
pub mod Oracle
pub mod Reports
