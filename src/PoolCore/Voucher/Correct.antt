-- ===== src/PoolCore/Voucher/Correct.antt =====
-- What `decide` promises: a voucher lies above all that was signed or claimed before, and never
-- above what the miner has earned.
use cr_faucet.Common.{◌≡◌, ◌⊎◌, inl, inr, arith}
use cr_faucet.Common.Int.{
  ℤ, pos, ◌+ℤ◌, ◌-ℤ◌, ◌≤ℤ◌, ◌<ℤ◌, max_ℤ, InI64, int_laws, -ℤ_parts, wrap_i64, wrap_i64_id, one_sign,
}
use cr_faucet.Common.Results.{ok, err}
use cr_faucet.PoolCore.Voucher.{
  VoucherInputs, VoucherDecision, non_positive, insufficient, empty, amount_or, covered,
  available_of, grant, decide,
}

-- The numbers of the request are values of `i64`.
pub record IsI64 (i : VoucherInputs) : Type 0 where
  pub earned_fits : InI64 i.earned_cumulative
  pub last_fits : InI64 i.last_voucher_cumulative
  pub claimed_fits : InI64 i.on_chain_claimed

-- `base` is the greatest of the three numbers.
pub covered_bounds :
    (i : VoucherInputs)
    → (i.last_voucher_cumulative ≤ℤ covered i)
      × (i.on_chain_claimed ≤ℤ covered i)
      × (pos 0 ≤ℤ covered i)
unfolding covered
covered_bounds i = ground arith

pub covered-InI64 : (i : VoucherInputs) → IsI64 i → InI64 (covered i)
unfolding covered
covered-InI64 i h = ground arith

-- The saturating subtraction is exact: both of its sides are `i64` values of at least 0.
pub available_exact :
    (i : VoucherInputs) → IsI64 i → available_of i ≡ max_ℤ i.earned_cumulative (pos 0) -ℤ covered i
unfolding available_of
available_exact i h = ground (
  arith,
  covered_bounds i,
  covered-InI64 i h,
  -ℤ_parts (max_ℤ i.earned_cumulative (pos 0)) (covered i),
)

-- Within the earned total the wrapping sum is exact.
sum_exact :
    (base amount earned : ℤ)
    → InI64 earned
    → pos 0 ≤ℤ base
    → pos 0 <ℤ amount
    → amount ≤ℤ earned -ℤ base
    → (wrap_i64 (base +ℤ amount) ≡ base +ℤ amount) × (base +ℤ amount ≤ℤ earned)
sum_exact base amount earned h b p q =
    let one = one_sign (base +ℤ amount) in
    (wrap_i64_id (base +ℤ amount) (omega (int_laws, one)), omega int_laws)

grant_sound :
    (base amount earned : ℤ) (d : VoucherDecision)
    → InI64 earned
    → pos 0 ≤ℤ base
    → grant base (earned -ℤ base) amount ≡ ok d
    → (d.marginal ≡ amount)
      × (pos 0 <ℤ amount)
      × (d.new_cumulative ≡ base +ℤ amount)
      × (d.new_cumulative ≤ℤ earned)
unfolding grant
grant_sound base amount earned d h b e = ground (arith, sum_exact base amount earned h b)

decide_empty :
    (i : VoucherInputs) → IsI64 i → i.earned_cumulative ≤ℤ covered i → decide i ≡ err empty
unfolding decide
decide_empty i h q = rw (available_exact i h) (
    ground (
      arith,
      covered_bounds i,
      -ℤ_parts i.earned_cumulative (covered i),
      -ℤ_parts (pos 0) (covered i),
    ))

-- What is left to issue.
abbrev pub left : VoucherInputs → ℤ
left i = i.earned_cumulative -ℤ covered i

max_earned :
    (i : VoucherInputs)
    → covered i <ℤ i.earned_cumulative
    → max_ℤ i.earned_cumulative (pos 0) ≡ i.earned_cumulative
max_earned i q = ground (arith, covered_bounds i)

decide_grants :
    (i : VoucherInputs)
    → IsI64 i
    → covered i <ℤ i.earned_cumulative
    → decide i ≡ grant (covered i) (left i) (amount_or i.requested_amount (left i))
unfolding decide
decide_grants i h q =
    rw (available_exact i h, max_earned i q)
      (ground (arith, -ℤ_parts i.earned_cumulative (covered i)))

≤ℤ_cases : (a b : ℤ) → (a ≤ℤ b) ⊎ (b <ℤ a)
≤ℤ_cases a b = omega arith

-- A voucher that is issued is worth a positive amount (the amount that was asked for, if one was),
-- lies that amount above the greatest of the last voucher, the on-chain claim and zero, and stays
-- within what the miner has earned. The inputs are `i64` values.
pub decide_sound :
    (i : VoucherInputs) (d : VoucherDecision)
    → IsI64 i
    → decide i ≡ ok d
    → (d.marginal ≡ amount_or i.requested_amount (left i))
      × (pos 0 <ℤ d.marginal)
      × (d.new_cumulative ≡ covered i +ℤ d.marginal)
      × (d.new_cumulative ≤ℤ i.earned_cumulative)
decide_sound i d h e = elim (≤ℤ_cases i.earned_cumulative (covered i)) [
  | inl q ↦ cc (decide_empty i h q)
  | inr q ↦ ground (
    arith,
    decide_grants i h q,
    grant_sound (covered i) (amount_or i.requested_amount (left i)) i.earned_cumulative d
        h.earned_fits (covered_bounds i).2,
  )
]

-- How `decide` ends, for `i64` inputs. With nothing left it refuses. Otherwise an amount that is
-- not positive and an amount above what is left are refused, each with its own error, and every
-- other amount is granted.
pub decide_outcomes :
    (i : VoucherInputs)
    → IsI64 i
    → let amount = amount_or i.requested_amount (left i) in
      (i.earned_cumulative ≤ℤ covered i → decide i ≡ err empty)
      × (covered i <ℤ i.earned_cumulative → amount ≤ℤ pos 0 → decide i ≡ err non_positive)
      × (covered i <ℤ i.earned_cumulative
          → pos 0 <ℤ amount
          → left i <ℤ amount
          → decide i ≡ err (insufficient amount (left i)))
      × (pos 0 <ℤ amount
          → amount ≤ℤ left i
          → decide i ≡ ok (record { new_cumulative = covered i +ℤ amount; marginal = amount }))
unfolding grant
decide_outcomes i h = (
  decide_empty i h,
  λ q p. rw (decide_grants i h q) (ground arith),
  λ q p r. rw (decide_grants i h q) (ground arith),
  λ p r.
      rw
        (
          decide_grants i h (omega int_laws),
          (sum_exact (covered i) (amount_or i.requested_amount (left i)) i.earned_cumulative
              h.earned_fits (covered_bounds i).2 p r).0,
        )
        (ground arith),
)
