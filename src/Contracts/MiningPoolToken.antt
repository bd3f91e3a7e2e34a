-- ===== src/Contracts/MiningPoolToken.antt =====
-- contracts/src/MiningPoolToken.sol: the claims, the redemptions and the processed markers of the
-- token. A `require` that fails is `none`. The EIP-712 signature check of `claim` is the argument
-- `signed_by`, the address that the signature recovers to.
use cr_faucet.Common.{
  ℕ, ◌+◌, ◌-◌, ◌%◌, ◌^◌, Bool, true, false, Option, none, some, Bytes, ◌==◌, ltb, leb, ◌&&◌, not,
  if◌then◌else◌,
}
use cr_faucet.Common.Dict.{Dict, lookup, insert}

pub record StoredRedemption : Type 0 where
  pub user : ℕ
  pub amount : ℕ
  pub xmr_address : Bytes

pub record Token : Type 0 where
  pub balance : Dict ℕ
  pub total_supply : ℕ
  pub claimed : Dict ℕ
  pub authorized_signer : ℕ
  pub next_redemption_id : ℕ
  pub redemptions : Dict StoredRedemption
  pub processed : Dict Bool
  pub payout_txid : Dict Bytes
  pub restore_height : ℕ
  pub redemption_gas_subsidy : ℕ

-- A mapping reads as its zero value where nothing was written.
abbrev pub or_zero : Option ℕ → ℕ
or_zero none = 0
or_zero (some n) = n

abbrev pub or_false : Option Bool → Bool
or_false none = false
or_false (some b) = b

unfoldable pub claimed_of : ℕ → Token → ℕ
claimed_of user t = or_zero (lookup user t.claimed)

unfoldable pub balance_of : ℕ → Token → ℕ
balance_of user t = or_zero (lookup user t.balance)

unfoldable pub is_processed : ℕ → Token → Bool
is_processed id t = or_false (lookup id t.processed)

-- `_mint`, whose supply is checked arithmetic on 256 bits.
unfoldable pub mint : ℕ → ℕ → Token → Option Token
unfolding balance_of
mint user delta t =
    if ltb (t.total_supply + delta) (2 ^ 256)
    then some (record t {
      total_supply = t.total_supply + delta;
      balance = insert user (balance_of user t + delta) t.balance;
    })
    else none

unfoldable pub claim : ℕ → ℕ → ℕ → Token → Option Token
unfolding mint claimed_of
claim user cumulative_amount signed_by t =
    let old = claimed_of user t in
    if ltb old cumulative_amount && signed_by == t.authorized_signer
    then mint user (cumulative_amount - old)
        (record t { claimed = insert user cumulative_amount t.claimed })
    else none

-- `msg.value` is `value`; the transfer of the subsidy to the signer succeeds.
unfoldable pub redeem : ℕ → ℕ → ℕ → Bytes → Token → Option (ℕ × Token)
unfolding balance_of
redeem sender value amount xmr_address t =
    let id = (t.next_redemption_id + 1) % 2 ^ 256 in
    if leb t.redemption_gas_subsidy value && leb amount (balance_of sender t)
    then some (
      id,
      record t {
        balance = insert sender (balance_of sender t - amount) t.balance;
        total_supply = t.total_supply - amount;
        next_redemption_id = id;
        redemptions =
            insert id (record { user = sender; amount = amount; xmr_address = xmr_address })
              t.redemptions;
      },
    )
    else none

unfoldable pub mark_processed : ℕ → ℕ → Bytes → ℕ → Token → Option Token
unfolding is_processed
mark_processed sender id monero_txid new_restore_height t =
    let t' = record t {
      restore_height =
          if ltb t.restore_height new_restore_height then new_restore_height else t.restore_height;
    } in
    if sender == t.authorized_signer && (not (id == 0) && leb id t.next_redemption_id)
    then some (
        if is_processed id t then t' else record t' {
          processed = insert id true t.processed;
          payout_txid = insert id monero_txid t.payout_txid;
        })
    else none
