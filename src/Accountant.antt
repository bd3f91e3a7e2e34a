-- ===== src/Accountant.antt =====
-- crates/accountant/src/lib.rs: the credit of a share. The rates are floating-point numbers, so what
-- a share is worth at them, after the cast to `i64`, is a parameter; the metrics are left out.
use cr_faucet.Common.{ℕ, Bool, true, false, if◌then◌else◌}
use cr_faucet.Common.Int.{ℤ, pos, InI64, leb_ℤ, ltb_ℤ}
use cr_faucet.Common.Results.{Result, ok, err}
use cr_faucet.PoolCore.Store.{Redis, StoreError, add_earned, add_fee_accrued}

-- The two products of a rate and a share's difficulty. The cast to `i64` saturates.
pub record Rates : Type 0 where
  pub credit_of : ℕ → ℤ
  pub fee_of : ℕ → ℤ
  pub credit_fits : (difficulty : ℕ) → InI64 (credit_of difficulty)

abbrev pub accrue : ℤ → ℤ → Redis → Result StoreError ℤ × Redis
accrue fee credited s = elim (add_fee_accrued fee s).0 [
  | ok _ ↦ (ok credited, (add_fee_accrued fee s).1)
  | err e ↦ (err e, (add_fee_accrued fee s).1)
]

abbrev pub accrue_if : Bool → ℤ → ℤ → Redis → Result StoreError ℤ × Redis
accrue_if true fee credited s = accrue fee credited s
accrue_if false fee credited s = (ok credited, s)

abbrev pub after_credit : Rates → ℕ → ℤ → Result StoreError ℤ × Redis → Result StoreError ℤ × Redis
after_credit rates difficulty credited (err e, s) = (err e, s)
after_credit rates difficulty credited (ok _, s) =
    accrue_if (ltb_ℤ (pos 0) (rates.fee_of difficulty)) (rates.fee_of difficulty) credited s

unfoldable pub credit : Rates → ℕ → ℕ → Redis → Result StoreError ℤ × Redis
credit rates miner difficulty s =
    let c = rates.credit_of difficulty in
    if leb_ℤ c (pos 0)
    then (ok (pos 0), s)
    else after_credit rates difficulty c (add_earned miner c s)
