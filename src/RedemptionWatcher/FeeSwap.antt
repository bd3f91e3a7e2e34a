-- ===== src/RedemptionWatcher/FeeSwap.antt =====
-- crates/redemption-watcher/src/fee_swap.rs: when and how much of the accrued fee is swapped. What the
-- tick reads from the chain and the store is its input, an unread value `none`; the operations
-- of `f64` are a parameter. The claim and the swap that follow are
-- transactions, of which the plan holds the amounts.
pub mod Bounds
use cr_faucet.Common.{
  ℕ, ◌+◌, ◌-◌, ◌*◌, ◌/◌, ◌%◌, ◌^◌, ltb, leb, ◌==◌, min, max, Bool, true, false, Option, none, some,
  if◌then◌else◌,
}
use cr_faucet.Common.Int.{ℤ, pos, negsuc}
use cr_faucet.PoolCore.Store.{TreasurySnapshot}

pub record FeeSwapConfig : Type 0 where
  pub rent_floor_wei : ℕ
  pub min_swap_atomic : ℕ
  pub max_swap_atomic : ℕ
  pub slippage_bps : ℕ
  pub min_swap_gas_multiple : ℕ

-- The answers that the tick gets: the reservoir's balance, the FeeSwapper's `claimed`, the accrued
-- fee, the treasury snapshot, the quote of the exchange for an amount, and the gas price.
pub record Reads : Type 0 where
  pub balance : Option ℕ
  pub claimed : Option ℕ
  pub accrued : Option ℤ
  pub treasury : Option (Option TreasurySnapshot)
  pub quote : ℕ → Option ℕ
  pub gas_price : Option ℕ

-- A claim of a cumulative amount, and the sale of `delta` for `min_out` at least.
pub record Plan : Type 0 where
  pub delta : ℕ
  pub new_cumulative : ℕ
  pub min_out : ℕ

pub data Tick : Type 0 where
  failed idle : Tick
  swap : Plan → Tick

-- Saturation at 128 bits.
unfoldable pub u256_to_u128 : ℕ → ℕ
u256_to_u128 v = if ltb v (2 ^ 128) then v else 2 ^ 128 - 1

-- `as u128` of an `i64`.
unfoldable pub as_u128 : ℤ → ℕ
as_u128 (pos n) = n
as_u128 (negsuc n) = 2 ^ 128 - (n + 1)

abbrev capped : ℕ → Option ℕ → ℕ
capped delta none = delta
capped delta (some cap) = min delta cap

unfoldable pub swap_delta_atomic : ℕ → ℕ → ℕ → Option ℕ → ℕ
swap_delta_atomic accrued already_minted max_swap wallet_cap =
    if leb accrued already_minted
    then 0
    else capped (min (accrued - already_minted) max_swap) wallet_cap

-- The operations of `f64` that the reserve bound uses; `to_u64` is `as u64`.
pub record Reals (F : Type 0) : Type 0 where
  pub of_nat : ℕ → F
  pub mul : F → F → F
  pub sub : F → F → F
  pub div : F → F → F
  pub max : F → F → F
  pub min : F → F → F
  pub floor : F → F
  pub le : F → F → Bool
  pub to_u64 : F → ℕ

-- The sum is one of 128 bits.
unfoldable pub mintable_fee : {F : Type 0} → Reals F → ℕ → ℕ → ℕ → F → ℕ → ℕ
mintable_fee fl unlocked supply pending ratio max_swap =
    let ratio' = fl.max ratio (fl.of_nat 1) in
    let required = fl.mul (fl.of_nat ((supply + pending) % 2 ^ 128)) ratio' in
    let surplus = fl.sub (fl.of_nat unlocked) required in
    if fl.le surplus (fl.of_nat 0)
    then 0
    else fl.to_u64
        (fl.max (fl.min (fl.floor (fl.div surplus ratio')) (fl.of_nat max_swap)) (fl.of_nat 0))

abbrev pub mintable_of : {F : Type 0} → Reals F → F → ℕ → TreasurySnapshot → ℕ
mintable_of fl ratio max_swap snap =
    mintable_fee fl snap.monero_unlocked_atomic snap.mining_pool_token_total_supply
      snap.pending_redemptions_atomic ratio max_swap

-- A snapshot of an empty wallet gives no cap.
abbrev pub wallet_cap_of : (TreasurySnapshot → ℕ) → Option TreasurySnapshot → Option ℕ
wallet_cap_of mintable none = none
wallet_cap_of mintable (some snap) =
    if ltb 0 snap.monero_unlocked_atomic then some (mintable snap) else none

-- `quote * (10_000 - slippage_bps) / 10_000`, in 64 and 128 bits.
unfoldable pub min_out_of : ℕ → ℕ → ℕ
min_out_of slippage_bps quote = quote * ((2 ^ 64 + 10000 - slippage_bps) % 2 ^ 64) % 2 ^ 128 / 10000

unfoldable pub gas_floor_of : ℕ → ℕ → ℕ
gas_floor_of multiple gas_price =
    min (min (gas_price * 600000) (2 ^ 128 - 1) * max multiple 1) (2 ^ 128 - 1)

-- The tests from the gas price on.
abbrev pub clear_gas : FeeSwapConfig → ℕ → ℕ → ℕ → Option ℕ → Tick
clear_gas cfg prev delta quote none = failed
clear_gas cfg prev delta quote (some gas_price) =
    let min_out = min_out_of cfg.slippage_bps (u256_to_u128 quote) in
    if ltb min_out (gas_floor_of cfg.min_swap_gas_multiple gas_price)
    then idle
    else swap (record { delta = delta; new_cumulative = prev + delta; min_out = min_out })

abbrev pub ask_quote : FeeSwapConfig → Reads → ℕ → ℕ → Option ℕ → Tick
ask_quote cfg r prev delta none = failed
ask_quote cfg r prev delta (some quote) =
    if quote == 0 then idle else clear_gas cfg prev delta quote r.gas_price

abbrev pub with_delta : FeeSwapConfig → Reads → ℕ → ℕ → Tick
with_delta cfg r prev delta =
    if ltb delta cfg.min_swap_atomic then idle else ask_quote cfg r prev delta (r.quote delta)

abbrev pub with_fee :
    FeeSwapConfig
    → (TreasurySnapshot → ℕ)
    → Reads
    → Option ℕ
    → Option ℤ
    → Option (Option TreasurySnapshot)
    → Tick
with_fee cfg mintable r none accrued treasury = failed
with_fee cfg mintable r (some prev) none treasury = failed
with_fee cfg mintable r (some prev) (some accrued) none = failed
with_fee cfg mintable r (some prev) (some accrued) (some treasury) = with_delta cfg r prev (
    swap_delta_atomic (as_u128 accrued) (u256_to_u128 prev) cfg.max_swap_atomic
      (wallet_cap_of mintable treasury))

abbrev pub with_balance : FeeSwapConfig → (TreasurySnapshot → ℕ) → Reads → Option ℕ → Tick
with_balance cfg mintable r none = failed
with_balance cfg mintable r (some balance) =
    if leb cfg.rent_floor_wei balance
    then idle
    else with_fee cfg mintable r r.claimed r.accrued r.treasury

unfoldable pub tick : {F : Type 0} → Reals F → F → FeeSwapConfig → Reads → Tick
tick fl ratio cfg r = with_balance cfg (mintable_of fl ratio cfg.max_swap_atomic) r r.balance
