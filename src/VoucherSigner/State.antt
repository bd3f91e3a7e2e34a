-- ===== src/VoucherSigner/State.antt =====
-- What `state` shows and what `issue` does with it (crates/voucher-signer/src/lib.rs).
use cr_faucet.Common.{ℕ, ◌≡◌, Option, none, some, Bytes, arith, refl, ==-refl}
use cr_faucet.Common.Dict.{lookup-insert}
use cr_faucet.Common.Int.{
  ℤ, pos, pos_part, ◌+ℤ◌, ◌-ℤ◌, ◌≤ℤ◌, ◌<ℤ◌, max_ℤ, InI64, i64_max, one_sign, +ℤ_parts, -ℤ_parts,
  wrap_i64, wrap_i64_id,
}
use cr_faucet.Common.Results.{Result, ok, err}
use cr_faucet.PoolCore.Store.{
  Redis, earned, last_voucher_cumulative, balance_state, set_last_voucher_cumulative,
}
use cr_faucet.PoolCore.Voucher.{
  VoucherInputs, VoucherDecision, VoucherError, empty, decide, covered,
}
use cr_faucet.PoolCore.Voucher.Correct.{IsI64, decide_sound, decide_outcomes, covered_bounds, left}
use cr_faucet.VoucherSigner.{
  Signer, VoucherOut, state, issue, issue_decided, u256_to_i64_or, inputs_of, claimed_or_zero,
  voucher_for, voucher_out,
}

-- The balances of the user are values of `i64`, and the earned one is not negative.
pub record IsSane (user : ℕ) (s : Redis) : Type 0 where
  pub earned_fits : InI64 (earned user s)
  pub last_fits : InI64 (last_voucher_cumulative user s)
  pub earned_sign : pos 0 ≤ℤ earned user s

claimed_bounds :
    (v : ℕ) → InI64 (u256_to_i64_or v (pos i64_max)) × (pos 0 ≤ℤ u256_to_i64_or v (pos i64_max))
unfolding u256_to_i64_or
claimed_bounds v = ground arith

inputs_IsI64 :
    (user : ℕ) (amount : Option ℤ) (read : Option ℕ) (s : Redis)
    → IsSane user s
    → IsI64 (inputs_of user amount read s)
unfolding balance_state
inputs_IsI64 user amount read s h = record {
  earned_fits = h.earned_fits;
  last_fits = h.last_fits;
  claimed_fits = (claimed_bounds (claimed_or_zero read)).0;
}

difference_fits : (e b : ℤ) → InI64 e → InI64 b → pos 0 ≤ℤ e → pos 0 ≤ℤ b → InI64 (e -ℤ b)
difference_fits e b he hb pe pb =
    ground (arith, one_sign (e -ℤ b), one_sign e, one_sign b, -ℤ_parts e b)

shown_left :
    (e l c : ℤ)
    → InI64 e
    → InI64 l
    → InI64 c
    → pos 0 ≤ℤ e
    → pos 0 ≤ℤ c
    → max_ℤ (wrap_i64 (e -ℤ max_ℤ l c)) (pos 0) ≡ max_ℤ (e -ℤ max_ℤ (max_ℤ l c) (pos 0)) (pos 0)
shown_left e l c he hl hc pe pc =
    let base : max_ℤ (max_ℤ l c) (pos 0) ≡ max_ℤ l c = ground arith in
    let exact =
      wrap_i64_id (e -ℤ max_ℤ l c)
        (difference_fits e (max_ℤ l c) he (ground arith) pe (ground arith)) in
    rw (base, exact) refl

left_none : (l : ℤ) (e c : ℤ) → l ≡ e -ℤ c → max_ℤ l (pos 0) ≡ pos 0 → e ≤ℤ c
left_none l e c d h = ground (arith, -ℤ_parts e c)

left_positive : (l : ℤ) → pos 0 <ℤ max_ℤ l (pos 0) → pos 0 <ℤ l
left_positive l h = ground arith

left_some : (l : ℤ) → pos 0 <ℤ max_ℤ l (pos 0) → max_ℤ l (pos 0) ≡ l
left_some l h = ground arith

-- The balance that is shown as available is what is left to issue, or 0.
shown :
    (user : ℕ) (read : Option ℕ) (s : Redis)
    → IsSane user s
    → (state user read s).available_to_voucher ≡ max_ℤ (left (inputs_of user none read s)) (pos 0)
unfolding state balance_state covered
shown user read s h =
    let claimed = u256_to_i64_or (claimed_or_zero read) (pos i64_max) in
    let (fits, sign) = claimed_bounds (claimed_or_zero read) in
    shown_left (earned user s) (last_voucher_cumulative user s) claimed h.earned_fits h.last_fits
      fits h.earned_sign sign

-- If `state` shows nothing available, `issue` without an amount refuses. If it shows a positive
-- amount, `issue` grants just that amount.
pub state_offers :
    (user : ℕ) (read : Option ℕ) (s : Redis)
    → IsSane user s
    → let shown = (state user read s).available_to_voucher in
      let i = inputs_of user none read s in
      (shown ≡ pos 0 → decide i ≡ err empty)
      × (pos 0 <ℤ shown
          → decide i ≡ ok (record { new_cumulative = covered i +ℤ shown; marginal = shown }))
state_offers user read s h =
    let i = inputs_of user none read s in
    let (none_left, _, _, granted) = decide_outcomes i (inputs_IsI64 user none read s h) in
    let same = shown user read s h in
    rw same (
      λ z. none_left (left_none (left i) i.earned_cumulative (covered i) refl z),
      λ p.
          let exact = left_some (left i) p in
          rw exact (granted (left_positive (left i) p) (omega arith)),
    )

out_fields :
    (user now claimed : ℕ) (e : ℤ) (d : VoucherDecision) (g : Option Bytes) (o : VoucherOut)
    → voucher_out user now claimed e d g ≡ ok o
    → (o.user ≡ user)
      × (o.signed_at ≡ now)
      × (o.cumulative_amount ≡ d.new_cumulative)
      × (o.marginal ≡ d.marginal)
      × (g ≡ some o.signature)
out_fields user now claimed e d none o h = cc
out_fields user now claimed e d (some g) o h = ground arith

set_last_lookup :
    (user : ℕ) (v : ℤ) (s : Redis)
    → let s' = set_last_voucher_cumulative user v s in
      (last_voucher_cumulative user s' ≡ v) × (earned user s' ≡ earned user s)
unfolding set_last_voucher_cumulative last_voucher_cumulative earned
set_last_lookup user v s = ground (arith, lookup-insert user user v s.last_voucher, ==-refl user)

above :
    (i : VoucherInputs) (d : VoucherDecision)
    → pos 0 <ℤ d.marginal
    → d.new_cumulative ≡ covered i +ℤ d.marginal
    → i.last_voucher_cumulative <ℤ d.new_cumulative
above i d p e = ground (arith, p, e, covered_bounds i, +ℤ_parts (covered i) d.marginal)

decided_sound :
    (signer : Signer) (user : ℕ) (amount : Option ℤ) (now : ℕ) (read : Option ℕ) (s : Redis)
    (o : VoucherOut) (r : Result VoucherError VoucherDecision)
    → IsSane user s
    → decide (inputs_of user amount read s) ≡ r
    → let (out, s') = issue_decided signer user now read s r in
      out ≡ ok o
      → (last_voucher_cumulative user s' ≡ o.cumulative_amount)
        × (last_voucher_cumulative user s <ℤ o.cumulative_amount)
        × (o.cumulative_amount ≤ℤ earned user s)
        × (earned user s' ≡ earned user s)
        × (signer.sign (record {
          user = user;
          cumulative_amount = pos_part o.cumulative_amount;
          signed_at = now;
        })
            ≡ some o.signature)
unfolding balance_state last_voucher_cumulative
decided_sound signer user amount now read s o (err x) h d e = cc
decided_sound signer user amount now read s o (ok g) h d e =
    let i = inputs_of user amount read s in
    let (_, positive, sum, within) = decide_sound i g (inputs_IsI64 user amount read s h) d in
    let (_, _, total, marginal, signed) =
      out_fields user now (claimed_or_zero read) _ g (signer.sign (voucher_for user now g)) o e in
    let (last, kept) = set_last_lookup user g.new_cumulative s in
    rw total (last, above i g positive sum, within, kept, signed)

-- A voucher that is handed out is signed for the user, its total and the time. The total is above
-- the store's last one, within what the miner has earned, and the store's last one from then on;
-- the earned balance stays. The balances before are `i64` values.
pub issue_sound :
    (signer : Signer) (user : ℕ) (amount : Option ℤ) (now : ℕ) (read : Option ℕ) (s : Redis)
    (o : VoucherOut)
    → IsSane user s
    → (issue signer user amount now read s).0 ≡ ok o
    → let s' = (issue signer user amount now read s).1 in
      (last_voucher_cumulative user s' ≡ o.cumulative_amount)
      × (last_voucher_cumulative user s <ℤ o.cumulative_amount)
      × (o.cumulative_amount ≤ℤ earned user s)
      × (earned user s' ≡ earned user s)
      × (signer.sign (record {
        user = user;
        cumulative_amount = pos_part o.cumulative_amount;
        signed_at = now;
      })
          ≡ some o.signature)
unfolding issue
issue_sound signer user amount now read s o h e =
    decided_sound signer user amount now read s o (decide (inputs_of user amount read s)) h refl e
