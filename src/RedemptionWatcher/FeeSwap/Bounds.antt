-- ===== src/RedemptionWatcher/FeeSwap/Bounds.antt =====
-- What a fee swap of crates/redemption-watcher/src/fee_swap.rs is bounded by.
use cr_faucet.Common.{ℕ, true, ◌+◌, ◌≤◌, ◌<◌, ◌≡◌, max}
use cr_faucet.RedemptionWatcher.FeeSwap.{Reals}

-- Laws of exact arithmetic, on numbers n and b; `f64` keeps them up to its rounding.
pub record IsArithmetic {F : Type 0} (fl : Reals F) : Type 0 where
  pub one_below : (r : F) → fl.le (fl.of_nat 1) (fl.max r (fl.of_nat 1)) ≡ true
  pub below_to_u64 : (n : ℕ) (x : F) → 0 < n → n ≤ fl.to_u64 x → fl.le (fl.of_nat n) x ≡ true
  pub below_max :
      (n : ℕ) (x : F)
      → 0 < n
      → fl.le (fl.of_nat n) (fl.max x (fl.of_nat 0)) ≡ true
      → fl.le (fl.of_nat n) x ≡ true
  pub below_min :
      (n : ℕ) (x y : F) → fl.le (fl.of_nat n) (fl.min x y) ≡ true → fl.le (fl.of_nat n) x ≡ true
  pub below_floor :
      (n : ℕ) (x : F) → fl.le (fl.of_nat n) (fl.floor x) ≡ true → fl.le (fl.of_nat n) x ≡ true
  pub below_div :
      (n : ℕ) (x r : F)
      → fl.le (fl.of_nat 1) r ≡ true
      → fl.le (fl.of_nat n) (fl.div x r) ≡ true
      → fl.le (fl.mul (fl.of_nat n) r) x ≡ true
  pub below_sub :
      (n b : ℕ) (x r : F)
      → 0 < n
      → fl.le (fl.of_nat 1) r ≡ true
      → fl.le (fl.mul (fl.of_nat n) r) (fl.sub x (fl.mul (fl.of_nat b) r)) ≡ true
      → fl.le (fl.mul (fl.of_nat (b + n)) r) x ≡ true
