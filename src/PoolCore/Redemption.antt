-- ===== src/PoolCore/Redemption.antt =====
-- crates/pool-core/src/redemption.rs: the redemption id in the low 16 bits of a payout.
use cr_faucet.Common.{
  ℕ, ◌+◌, ◌-◌, ◌%◌, ◌^◌, ◌≤◌, ◌<◌, ◌≡◌, Bool, true, arith, ltb, ◌==◌, if◌then◌else◌,
}

abbrev pub stamp_mod : ℕ
stamp_mod = 2 ^ 16

unfoldable pub stamp_tag : ℕ → ℕ
stamp_tag id = id % stamp_mod

-- `payout & !(STAMP_MOD - 1)` clears the low 16 bits, so `base | tag` is their sum.
unfoldable pub stamp_amount : ℕ → ℕ → ℕ
unfolding stamp_tag
stamp_amount payout id =
    let base = payout - payout % stamp_mod in
    let stamped = base + stamp_tag id in if ltb payout stamped then stamped - stamp_mod else stamped

unfoldable pub matches_stamp : ℕ → ℕ → Bool
unfolding stamp_tag
matches_stamp amount id = amount % stamp_mod == stamp_tag id

-- For a payout of at least 2 ^ 16, the stamped amount is positive, is at most the payout, gives
-- up less than 2 ^ 17 of it, and carries the stamp of the id.
pub stamp_amount_correct :
    (payout id : ℕ)
    → stamp_mod ≤ payout
    → (0 < stamp_amount payout id)
      × (stamp_amount payout id ≤ payout)
      × (payout < stamp_amount payout id + 2 ^ 17)
      × (matches_stamp (stamp_amount payout id) id ≡ true)
unfolding stamp_amount matches_stamp
stamp_amount_correct payout id h = ground arith
