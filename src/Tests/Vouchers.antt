-- ===== src/Tests/Vouchers.antt =====
-- Runs of crates/voucher-signer, crates/pool-core/src/voucher.rs and the balances of the store.
use cr_faucet.Common.{
  ℕ, ◌≡◌, none, some, List, [], ◌∷◌, All, arith, refl, inl, ◌+◌, ◌-◌, subst, sym, Any,
}
use cr_faucet.Common.Dict.{lookup, insert}
use cr_faucet.Common.Int.{ℤ, pos, pos_part, ◌+ℤ◌, ◌-ℤ◌, ◌≤ℤ◌, ◌<ℤ◌, wrap_i64}
use cr_faucet.Common.Results.{ok, err}
use cr_faucet.Contracts.MiningPoolToken.{Token, claim, claimed_of, mint, balance_of}
use cr_faucet.PoolCore.Store.{
  Redis, empty_redis, earned, last_voucher_cumulative, add_earned, add_fee_accrued, balance_state,
}
use cr_faucet.PoolCore.Voucher.{
  VoucherInputs, VoucherDecision, non_positive, insufficient, empty, amount_or, covered,
  available_of, grant, decide,
}
use cr_faucet.PoolCore.Voucher.Correct.{IsI64, left, decide_sound, decide_outcomes}
use cr_faucet.Accountant.{Rates, credit}
use cr_faucet.VoucherSigner.{Signer, VoucherOut, state, issue, inputs_of, u256_to_i64_or}
use cr_faucet.VoucherSigner.State.{IsSane, state_offers, issue_sound}
use cr_faucet.VoucherSigner.Solvency.{
  Run, begins, credits, issues, claims, with_voucher, share_value, IsBounded, claims_covered,
}

abbrev inputs : VoucherInputs
inputs = record {
  earned_cumulative = pos 100;
  last_voucher_cumulative = pos 30;
  on_chain_claimed = pos 40;
  requested_amount = some (pos 25);
}

abbrev decision : VoucherDecision
decision = record { new_cumulative = pos 65; marginal = pos 25 }

inputs-IsI64 : IsI64 inputs
inputs-IsI64 = record {
  earned_fits = (omega arith, omega arith);
  last_fits = (omega arith, omega arith);
  claimed_fits = (omega arith, omega arith);
}

decided : decide inputs ≡ ok decision
unfolding decide covered available_of grant wrap_i64 ◌+ℤ◌ ◌-ℤ◌
decided = refl

decide_sound_example :
    (decision.marginal ≡ amount_or inputs.requested_amount (left inputs))
    × (pos 0 <ℤ decision.marginal)
    × (decision.new_cumulative ≡ covered inputs +ℤ decision.marginal)
    × (decision.new_cumulative ≤ℤ inputs.earned_cumulative)
decide_sound_example = decide_sound inputs decision inputs-IsI64 decided

decide_outcomes_example :
    let amount = amount_or inputs.requested_amount (left inputs) in
    (inputs.earned_cumulative ≤ℤ covered inputs → decide inputs ≡ err empty)
    × (covered inputs <ℤ inputs.earned_cumulative
        → amount ≤ℤ pos 0
        → decide inputs ≡ err non_positive)
    × (covered inputs <ℤ inputs.earned_cumulative
        → pos 0 <ℤ amount
        → left inputs <ℤ amount
        → decide inputs ≡ err (insufficient amount (left inputs)))
    × (pos 0 <ℤ amount
        → amount ≤ℤ left inputs
        → decide inputs
          ≡ ok (record { new_cumulative = covered inputs +ℤ amount; marginal = amount }))
decide_outcomes_example = decide_outcomes inputs inputs-IsI64

-- A miner with 100 earned and a voucher over 30.
abbrev miner : ℕ
miner = 5

abbrev store : Redis
store = record empty_redis { earned = (miner, pos 100) ∷ []; last_voucher = (miner, pos 30) ∷ [] }

abbrev signer : Signer
signer = record { address = 1; sign = λ v. some (v.cumulative_amount ∷ []); recover = λ v g. none }

store-IsSane : IsSane miner store
unfolding earned last_voucher_cumulative lookup
store-IsSane = record {
  earned_fits = (omega arith, omega arith);
  last_fits = (omega arith, omega arith);
  earned_sign = omega arith;
}

abbrev issued : VoucherOut
issued = record {
  user = miner;
  cumulative_amount = pos 65;
  marginal = pos 25;
  signed_at = 9;
  signature = 65 ∷ [];
  earned_cumulative = pos 100;
  last_voucher_cumulative = pos 65;
  on_chain_claimed = 40;
}

issues_it : (issue signer miner (some (pos 25)) 9 (some 40) store).0 ≡ ok issued
unfolding issue decide covered available_of grant wrap_i64 ◌+ℤ◌ ◌-ℤ◌ balance_state earned
    last_voucher_cumulative lookup u256_to_i64_or
issues_it = refl

issue_sound_example :
    let s' = (issue signer miner (some (pos 25)) 9 (some 40) store).1 in
    (last_voucher_cumulative miner s' ≡ issued.cumulative_amount)
    × (last_voucher_cumulative miner store <ℤ issued.cumulative_amount)
    × (issued.cumulative_amount ≤ℤ earned miner store)
    × (earned miner s' ≡ earned miner store)
    × (signer.sign (record {
      user = miner;
      cumulative_amount = pos_part issued.cumulative_amount;
      signed_at = 9;
    })
        ≡ some issued.signature)
issue_sound_example =
    issue_sound signer miner (some (pos 25)) 9 (some 40) store issued store-IsSane issues_it

state_offers_example :
    let shown = (state miner (some 40) store).available_to_voucher in
    let i = inputs_of miner none (some 40) store in
    (shown ≡ pos 0 → decide i ≡ err empty)
    × (pos 0 <ℤ shown
        → decide i ≡ ok (record { new_cumulative = covered i +ℤ shown; marginal = shown }))
state_offers_example = state_offers miner (some 40) store store-IsSane

added : (add_earned miner (pos 11) store).0 ≡ ok (pos 111)
unfolding add_earned earned lookup ◌+ℤ◌
added = refl

-- A miner is credited 100, is handed a voucher over all of it, claims it, and its balance is lost.
abbrev rates : Rates
rates = record {
  credit_of = λ d. pos 100;
  fee_of = λ d. pos 1;
  credit_fits = λ d. (omega arith, omega arith);
}

abbrev token : Token
token = record {
  balance = [];
  total_supply = 0;
  claimed = [];
  authorized_signer = 1;
  next_redemption_id = 0;
  redemptions = [];
  processed = [];
  payout_txid = [];
  restore_height = 0;
  redemption_gas_subsidy = 0;
}

abbrev credited : Redis
credited = (credit rates miner 3 empty_redis).1

abbrev vouched : Redis
vouched = (issue signer miner none 9 none credited).1

abbrev vouchers : List ℤ
vouchers = with_voucher miner (issue signer miner none 9 none credited).0 []

abbrev claimed_token : Token
claimed_token = record token {
  claimed = insert miner 100 [];
  total_supply = 0 + (100 - 0);
  balance = insert miner (0 + (100 - 0)) [];
}

unclaimed : claimed_of miner token ≡ 0
unfolding claimed_of lookup
unclaimed = refl

vouchers_hold : vouchers ≡ pos 100 ∷ []
unfolding issue decide covered available_of grant wrap_i64 ◌+ℤ◌ ◌-ℤ◌ balance_state earned
    last_voucher_cumulative lookup u256_to_i64_or credit add_earned add_fee_accrued insert
vouchers_hold = refl

claimed : claim miner 100 1 token ≡ some claimed_token
unfolding claim claimed_of mint lookup balance_of insert
claimed = refl

history :
    Run signer rates miner vouched claimed_token vouchers (pos 0 +ℤ share_value rates miner miner 3)
history =
    claims miner 100 1 vouched token claimed_token vouchers _
      (λ own same. subst (λ vs. Any (λ v. v ≡ pos 100) vs) (sym vouchers_hold) (inl refl)) claimed
      (issues miner none 9 none credited token [] _
        (credits miner 3 empty_redis token [] (pos 0) (begins token unclaimed)))

bounded : IsBounded (pos 0 +ℤ share_value rates miner miner 3)
unfolding ◌+ℤ◌
bounded = omega arith

claims_covered_example :
    (pos (claimed_of miner claimed_token) ≤ℤ pos 0 +ℤ share_value rates miner miner 3)
    × All (λ v. v ≤ℤ pos 0 +ℤ share_value rates miner miner 3) vouchers
claims_covered_example =
    claims_covered signer rates miner vouched claimed_token vouchers
      (pos 0 +ℤ share_value rates miner miner 3) history bounded
