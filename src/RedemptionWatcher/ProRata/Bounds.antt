-- ===== src/RedemptionWatcher/ProRata/Bounds.antt =====
-- What a pro-rata payout of crates/redemption-watcher/src/payouts.rs is bounded by.
use cr_faucet.Common.{ℕ, ◌+◌, ◌-◌, ◌*◌, ◌/◌, ◌^◌, ◌≤◌, ◌<◌, ◌≡◌, true, min, arith}
use mathlib.Core.Path.{subst₂}
use native.Mathlib.Decide.{dec_le}
use Prim.Native.Nat.{zero-le}
use native.Mathlib.Nat.{le_trans}
use cr_faucet.PoolCore.Redemption.{stamp_mod, stamp_amount, matches_stamp, stamp_amount_correct}
use cr_faucet.PoolCore.Store.{TreasurySnapshot}
use cr_faucet.RedemptionWatcher.ProRata.{
  MoneroConfig, pay, quote, admit, denom_of, effective_balance_of, cap_of, sat_u256,
}

div-mul-le : (x d : ℕ) → 0 < d → x / d * d ≤ x
div-mul-le x d h = omega arith

mul_le_mul_left : (a b c : ℕ) → b ≤ c → a * b ≤ a * c
mul_le_mul_left a b c h = grind arith

admit-pay :
    (snap : TreasurySnapshot) (payout p : ℕ)
    → admit snap payout ≡ pay p
    → (p ≡ payout) × (p < 2 ^ 128) × (stamp_mod ≤ p) × (p ≤ snap.monero_unlocked_atomic)
unfolding admit
admit-pay snap payout p e = ground arith

quote-pay :
    (cfg : MoneroConfig) (snap : TreasurySnapshot) (pending_now amount p : ℕ)
    → quote cfg snap pending_now amount ≡ pay p
    → let denom = denom_of snap pending_now in
      (0 < denom)
      × (admit snap (sat_u256 (amount * effective_balance_of cfg snap denom) / denom) ≡ pay p)
unfolding quote
quote-pay cfg snap pending_now amount p e = ground arith

-- A share of the smaller of two balances is a share of each.
share_bounds :
    (amount balance cap d : ℕ)
    → 0 < d
    → let q = sat_u256 (amount * min balance cap) / d in
      (q * d ≤ amount * balance) × (q * d ≤ amount * cap)
share_bounds amount balance cap d h =
    let q = sat_u256 (amount * min balance cap) in
    let below = div-mul-le q d h in
    let b = mul_le_mul_left amount (min balance cap) balance (omega arith) in
    let c = mul_le_mul_left amount (min balance cap) cap (omega arith) in
    (omega (arith, below, b), omega (arith, below, c))

covered_rate : (r p a e : ℕ) → p * (a + e) ≤ a * (p + r) → (p + r) * e ≤ r * (a + e)
covered_rate r p a e share = omega arith

overdrawn_rate : (balance r a e : ℕ) → (balance + 1 + r) * (a + e) ≤ a * balance → balance * e ≤ 0
overdrawn_rate balance r a e share = omega arith

rate_kept :
    (balance denom amount p : ℕ)
    → amount ≤ denom
    → p * denom ≤ amount * balance
    → balance * (denom - amount) ≤ (balance - p) * denom
rate_kept balance denom amount p fits share = elim (dec_le p balance) [
  | yes h ↦
      subst₂ (λ b d. b * (denom - amount) ≤ (balance - p) * d) (omega arith) (omega arith)
        (covered_rate (balance - p) p amount (denom - amount)
          (subst₂ (λ b d. p * d ≤ amount * b) (omega arith) (omega arith) share))
  | no h ↦
      le_trans
        (overdrawn_rate balance (p - balance - 1) amount (denom - amount)
          (subst₂ (λ q d. q * d ≤ amount * balance) (omega arith) (omega arith) share))
        zero-le
]

pub quote_limits :
    (cfg : MoneroConfig) (snap : TreasurySnapshot) (pending_now amount p : ℕ)
    → quote cfg snap pending_now amount ≡ pay p
    → let denom = denom_of snap pending_now in
      (stamp_mod ≤ p)
      × (p ≤ snap.monero_unlocked_atomic)
      × (p * denom ≤ amount * snap.monero_balance_atomic)
      × (p * denom ≤ amount * cap_of cfg denom)
unfolding effective_balance_of
quote_limits cfg snap pending_now amount p e =
    let denom = denom_of snap pending_now in
    let (some_denom, admitted) = quote-pay cfg snap pending_now amount p e in
    let (exact, _, unit, unlocked) = admit-pay snap _ p admitted in
    let (wallet, capped) =
      share_bounds amount snap.monero_balance_atomic (cap_of cfg denom) denom some_denom in
    (unit, unlocked, rw exact wallet, rw exact capped)

-- The amount that is sent for a quote, stamped with the id of the redemption, is positive and at most the
-- unlocked balance, no more than the redemption's share of the wallet, and no more than its share of the
-- capped balance. It carries the stamp, and is less than 2 ^ 17 below the quote.
pub quote_bounds :
    (cfg : MoneroConfig) (snap : TreasurySnapshot) (pending_now amount p id : ℕ)
    → quote cfg snap pending_now amount ≡ pay p
    → let denom = denom_of snap pending_now in
      let sent = stamp_amount p id in
      (0 < sent)
      × (sent ≤ snap.monero_unlocked_atomic)
      × (sent * denom ≤ amount * snap.monero_balance_atomic)
      × (sent * denom ≤ amount * cap_of cfg denom)
      × (matches_stamp sent id ≡ true)
      × (p < sent + 2 ^ 17)
quote_bounds cfg snap pending_now amount p id e =
    let denom = denom_of snap pending_now in
    let (unit, unlocked, wallet, capped) = quote_limits cfg snap pending_now amount p e in
    let (some_sent, below, near, carries) = stamp_amount_correct p id unit in
    let less = mul_le_mul_left denom (stamp_amount p id) p below in
    (
      some_sent,
      omega (arith, below, unlocked),
      omega (arith, less, wallet),
      omega (arith, less, capped),
      carries,
      near,
    )

-- Taking the amount of a quote, or less, out of the wallet never lowers the rate of those who have not
-- redeemed yet: what is left in the wallet, over what is left of the claims, is at least the wallet over
-- all claims. The network fee, which the wallet pays on top, is not counted. The amount that is redeemed
-- is part of the claims.
pub quote_keeps_rate :
    (cfg : MoneroConfig) (snap : TreasurySnapshot) (pending_now amount p sent : ℕ)
    → quote cfg snap pending_now amount ≡ pay p
    → amount ≤ denom_of snap pending_now
    → sent ≤ p
    → let denom = denom_of snap pending_now in
      snap.monero_balance_atomic * (denom - amount) ≤ (snap.monero_balance_atomic - sent) * denom
quote_keeps_rate cfg snap pending_now amount p sent e fits below =
    let denom = denom_of snap pending_now in
    let limits = quote_limits cfg snap pending_now amount p e in
    rate_kept snap.monero_balance_atomic denom amount sent fits
      (omega (arith, mul_le_mul_left denom sent p below, limits.2))
