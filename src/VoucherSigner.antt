-- ===== src/VoucherSigner.antt =====
-- crates/voucher-signer/src/lib.rs: the vouchers that a miner asks for. The lock of the user makes
-- `issue` and `restore` one step each. Hashing, signing and the recovery of a signer belong to a
-- library and are parameters; a signature is the text of its bytes.
pub mod State
pub mod Solvency
use cr_faucet.Common.{
  ℕ, ◌%◌, ◌^◌, ◌==◌, leb, ltb, Bool, true, false, Option, none, some, Bytes, if◌then◌else◌,
}
use cr_faucet.Common.Int.{ℤ, pos, pos_part, max_ℤ, leb_ℤ, ◌-ℤ◌, wrap_i64, i64_max}
use cr_faucet.Common.Results.{Result, ok, err}
use cr_faucet.PoolCore.Store.{Redis, balance_state, restore_cumulative, set_last_voucher_cumulative}
use cr_faucet.PoolCore.Voucher.{VoucherInputs, VoucherDecision, VoucherError, decide}

pub record Voucher : Type 0 where
  pub user : ℕ
  pub cumulative_amount : ℕ
  pub signed_at : ℕ

-- The enclave's address, its signature of a voucher, and the address that a signature of a voucher
-- recovers to, if its text can be read and a signer recovered.
pub record Signer : Type 0 where
  pub address : ℕ
  pub sign : Voucher → Option Bytes
  pub recover : Voucher → Bytes → Option ℕ

pub record VoucherOut : Type 0 where
  pub user : ℕ
  pub cumulative_amount : ℤ
  pub marginal : ℤ
  pub signed_at : ℕ
  pub signature : Bytes
  pub earned_cumulative : ℤ
  pub last_voucher_cumulative : ℤ
  pub on_chain_claimed : ℕ

pub record StateOut : Type 0 where
  pub user : ℕ
  pub earned_cumulative : ℤ
  pub last_voucher_cumulative : ℤ
  pub on_chain_claimed : ℕ
  pub available_to_voucher : ℤ

pub data ServiceError : Type 0 where
  refused : VoucherError → ServiceError
  not_positive no_signer foreign_signer internal : ServiceError

unfoldable pub u256_to_i64_or : ℕ → ℤ → ℤ
u256_to_i64_or v fallback = if leb v i64_max then pos v else fallback

-- `claimed_reader.read(user).await.unwrap_or(U256::ZERO)`
abbrev pub claimed_or_zero : Option ℕ → ℕ
claimed_or_zero none = 0
claimed_or_zero (some v) = v

unfoldable pub state : ℕ → Option ℕ → Redis → StateOut
unfolding u256_to_i64_or
state user read s =
    let b = balance_state user s in
    let claimed = claimed_or_zero read in
    let base = max_ℤ b.last_voucher_cumulative (u256_to_i64_or claimed (pos i64_max)) in
    record {
      user = user;
      earned_cumulative = b.earned;
      last_voucher_cumulative = b.last_voucher_cumulative;
      on_chain_claimed = claimed;
      available_to_voucher = max_ℤ (wrap_i64 (b.earned -ℤ base)) (pos 0);
    }

-- What `decide` is asked.
abbrev pub inputs_of : ℕ → Option ℤ → Option ℕ → Redis → VoucherInputs
inputs_of user amount read s =
    let b = balance_state user s in
    record {
      earned_cumulative = b.earned;
      last_voucher_cumulative = b.last_voucher_cumulative;
      on_chain_claimed = u256_to_i64_or (claimed_or_zero read) (pos i64_max);
      requested_amount = amount;
    }

-- `new_cumulative as u64`, which is not negative.
abbrev pub voucher_for : ℕ → ℕ → VoucherDecision → Voucher
voucher_for user now d = record {
  user = user;
  cumulative_amount = pos_part d.new_cumulative;
  signed_at = now;
}

abbrev pub voucher_out :
    ℕ → ℕ → ℕ → ℤ → VoucherDecision → Option Bytes → Result ServiceError VoucherOut
voucher_out user now claimed earned d none = err internal
voucher_out user now claimed earned d (some signature) = ok (record {
  user = user;
  cumulative_amount = d.new_cumulative;
  marginal = d.marginal;
  signed_at = now;
  signature = signature;
  earned_cumulative = earned;
  last_voucher_cumulative = d.new_cumulative;
  on_chain_claimed = claimed;
})

-- The total is stored before the voucher is signed.
abbrev pub issue_decided :
    Signer
    → ℕ
    → ℕ
    → Option ℕ
    → Redis
    → Result VoucherError VoucherDecision
    → Result ServiceError VoucherOut × Redis
issue_decided signer user now read s (err e) = (err (refused e), s)
issue_decided signer user now read s (ok d) = (
  voucher_out user now (claimed_or_zero read) (balance_state user s).earned d
      (signer.sign (voucher_for user now d)),
  set_last_voucher_cumulative user d.new_cumulative s,
)

unfoldable pub issue :
    Signer → ℕ → Option ℤ → ℕ → Option ℕ → Redis → Result ServiceError VoucherOut × Redis
issue signer user amount now read s =
    issue_decided signer user now read s (decide (inputs_of user amount read s))

abbrev pub restore_signed :
    Signer → ℕ → ℤ → Option ℕ → Redis → Option ℕ → Result ServiceError StateOut × Redis
restore_signed signer user cumulative read s none = (err no_signer, s)
restore_signed signer user cumulative read s (some recovered) =
    let s' = (restore_cumulative user cumulative s).1 in
    if recovered == signer.address then (ok (state user read s'), s') else (err foreign_signer, s)

unfoldable pub restore :
    Signer → ℕ → ℤ → ℕ → Bytes → Option ℕ → Redis → Result ServiceError StateOut × Redis
restore signer user cumulative signed_at signature read s =
    let v : Voucher = record {
      user = user;
      cumulative_amount = pos_part cumulative;
      signed_at = signed_at;
    } in
    if leb_ℤ cumulative (pos 0)
    then (err not_positive, s)
    else restore_signed signer user cumulative read s (signer.recover v signature)
