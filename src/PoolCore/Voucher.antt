-- ===== src/PoolCore/Voucher.antt =====
-- crates/pool-core/src/voucher.rs: which cumulative amount the next voucher of a miner commits to.
pub mod Correct
use cr_faucet.Common.{Option, none, some, if◌then◌else◌}
use cr_faucet.Common.Int.{ℤ, pos, ◌+ℤ◌, ◌-ℤ◌, leb_ℤ, ltb_ℤ, max_ℤ, saturate_i64, wrap_i64}
use cr_faucet.Common.Results.{Result, ok, err}

pub record VoucherInputs : Type 0 where
  pub earned_cumulative : ℤ
  pub last_voucher_cumulative : ℤ
  pub on_chain_claimed : ℤ
  pub requested_amount : Option ℤ

pub record VoucherDecision : Type 0 where
  pub new_cumulative : ℤ
  pub marginal : ℤ

pub data VoucherError : Type 0 where
  non_positive : VoucherError
  insufficient : ℤ → ℤ → VoucherError
  empty : VoucherError

-- `unwrap_or`
abbrev pub amount_or : Option ℤ → ℤ → ℤ
amount_or none available = available
amount_or (some a) _ = a

-- What earlier vouchers and claims cover already: `base`.
unfoldable pub covered : VoucherInputs → ℤ
covered i = max_ℤ (max_ℤ i.last_voucher_cumulative i.on_chain_claimed) (pos 0)

unfoldable pub available_of : VoucherInputs → ℤ
unfolding covered
available_of i = saturate_i64 (max_ℤ i.earned_cumulative (pos 0) -ℤ covered i)

-- The tests on the amount, in the order of the source.
unfoldable pub grant : ℤ → ℤ → ℤ → Result VoucherError VoucherDecision
grant base available amount =
    if leb_ℤ amount (pos 0)
    then err non_positive
    else if ltb_ℤ available amount
    then err (insufficient amount available)
    else ok (record { new_cumulative = wrap_i64 (base +ℤ amount); marginal = amount })

unfoldable pub decide : VoucherInputs → Result VoucherError VoucherDecision
decide i =
    let base = covered i in
    let available = available_of i in
    if leb_ℤ available (pos 0)
    then err empty
    else grant base available (amount_or i.requested_amount available)
