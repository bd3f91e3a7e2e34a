-- ===== src/RedemptionWatcher/ProRata.antt =====
-- crates/redemption-watcher/src/payouts.rs: the pro-rata payout of one redemption, and the tests that
-- follow it, as a function of the treasury snapshot and the live pending total.
pub mod Bounds
use cr_faucet.Common.{ℕ, ◌+◌, ◌-◌, ◌*◌, ◌/◌, ◌^◌, ◌==◌, ◌||◌, min, ltb, leb, if◌then◌else◌}
use cr_faucet.PoolCore.Redemption.{stamp_mod}
use cr_faucet.PoolCore.Store.{TreasurySnapshot}

-- The fields of `MoneroConfig` that the payouts read. `confirm_polls` is the number of polls that
-- fit in `confirm_wait_secs`, after the first.
pub record MoneroConfig : Type 0 where
  pub per_tx_cap_atomic : ℕ
  pub max_payout_premium_bp : ℕ
  pub confirm_polls : ℕ

-- Saturating arithmetic on `u128` and on `U256`.
abbrev pub sat_u128 : ℕ → ℕ
sat_u128 n = min n (2 ^ 128 - 1)

abbrev pub sat_u256 : ℕ → ℕ
sat_u256 n = min n (2 ^ 256 - 1)

-- What becomes of a redemption whose funds were looked at.
pub data Quote : Type 0 where
  pause dust locked : Quote
  pay : ℕ → Quote

unfoldable pub denom_of : TreasurySnapshot → ℕ → ℕ
denom_of snap pending_now = sat_u128 (snap.mining_pool_token_total_supply + pending_now)

unfoldable pub cap_of : MoneroConfig → ℕ → ℕ
cap_of cfg denom = sat_u128 (denom + sat_u128 (denom * cfg.max_payout_premium_bp) / 10000)

unfoldable pub effective_balance_of : MoneroConfig → TreasurySnapshot → ℕ → ℕ
effective_balance_of cfg snap denom = min snap.monero_balance_atomic (cap_of cfg denom)

-- The tests on a payout of `U256`: too large for `u128`, below the stamp's unit, not unlocked.
unfoldable pub admit : TreasurySnapshot → ℕ → Quote
admit snap payout =
    if leb (2 ^ 128) payout
    then pause
    else if ltb payout stamp_mod
    then dust
    else if ltb snap.monero_unlocked_atomic payout
    then locked
    else pay payout

unfoldable pub quote : MoneroConfig → TreasurySnapshot → ℕ → ℕ → Quote
quote cfg snap pending_now amount =
    let denom = denom_of snap pending_now in
    if denom == 0 || snap.monero_balance_atomic == 0
    then pause
    else admit snap (sat_u256 (amount * effective_balance_of cfg snap denom) / denom)
