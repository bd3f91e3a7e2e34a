-- ===== src/RedemptionWatcher/Preserves/Stages.antt =====
-- Every stage of crates/redemption-watcher/src/payouts.rs but the transfer itself keeps an invariant
-- of the wallet, the token and the log.
use cr_faucet.Common.{ℕ, Bool, true, false, Option, none, some, List, Bytes}
use cr_faucet.Contracts.MiningPoolToken.{Token}
use cr_faucet.PoolCore.Store.{StreamEntry}
use cr_faucet.RedemptionWatcher.Wallet.{WalletRpc}
use cr_faucet.RedemptionWatcher.World.{Payment, processed, defer}
use cr_faucet.RedemptionWatcher.Calls.{xack}
use cr_faucet.RedemptionWatcher.Guards.{
  Settings, settle, park_above_cap, skip_processed, check_marker, find_paid_tx, mark_confirmed,
  skip_found, reconcile, proceed_if, claim_slot,
}
use cr_faucet.RedemptionWatcher.Preserves.{
  Preserves, IsClosed, Preserves-pure, Preserves-leave, Preserves-bind, Preserves-seq,
  Preserves-call, Preserves-require, Preserves-if, Harmless-redis, Harmless-wallet_read,
  Harmless-token_read, Harmless-mark_call,
}

module _ {rpc : WalletRpc} {P : rpc.Wallet → Token → List Payment → Type 0}
    (c : IsClosed rpc P) where
  pub settle-Preserves : (e : StreamEntry) → Preserves rpc P (settle e)
  unfolding settle
  settle-Preserves e =
      Preserves-seq (Preserves-require (Harmless-redis (xack e.entry_id)))
        (Preserves-leave processed)

  pub park_above_cap-Preserves :
      (cfg : Settings) (e : StreamEntry) → Preserves rpc P (park_above_cap cfg e)
  unfolding park_above_cap
  park_above_cap-Preserves cfg e =
      Preserves-if _ (Preserves-seq (Preserves-require (Harmless-redis _)) (settle-Preserves e))
        (Preserves-pure tt)

  skip_processed-Preserves :
      (e : StreamEntry) (done : Option Bool) → Preserves rpc P (skip_processed e done)
  skip_processed-Preserves e none = Preserves-leave defer
  skip_processed-Preserves e (some true) =
      Preserves-seq (Preserves-require (Harmless-redis _)) (settle-Preserves e)
  skip_processed-Preserves e (some false) = Preserves-pure tt

  pub check_marker-Preserves :
      (cfg : Settings) (e : StreamEntry) → Preserves rpc P (check_marker cfg e)
  unfolding check_marker
  check_marker-Preserves cfg e =
      Preserves-if _
        (Preserves-bind (Preserves-call (Harmless-token_read _)) (skip_processed-Preserves e))
        (Preserves-pure tt)

  pub find_paid_tx-Preserves : (id : ℕ) → Preserves rpc P (find_paid_tx id)
  unfolding find_paid_tx
  find_paid_tx-Preserves id =
      Preserves-bind (Preserves-call (Harmless-wallet_read _)) (λ tip.
        Preserves-bind (Preserves-call (Harmless-wallet_read _)) (λ answer. Preserves-pure _))

  mark_confirmed-Preserves :
      (cfg : Settings) (id : ℕ) (txid : Bytes) (confirmed : Bool)
      → Preserves rpc P (mark_confirmed cfg id txid confirmed)
  unfolding mark_confirmed
  mark_confirmed-Preserves cfg id txid false = Preserves-pure tt
  mark_confirmed-Preserves cfg id txid true =
      Preserves-if _
        (Preserves-seq (Preserves-call (Harmless-mark_call _ _ _ _ c)) (Preserves-pure tt))
        (Preserves-pure tt)

  pub skip_found-Preserves :
      (cfg : Settings) (e : StreamEntry) (found : Option (Option (Bytes × Bool)))
      → Preserves rpc P (skip_found cfg e found)
  skip_found-Preserves cfg e none = Preserves-leave defer
  skip_found-Preserves cfg e (some none) = Preserves-pure tt
  skip_found-Preserves cfg e (some (some (txid, confirmed))) =
      Preserves-seq (Preserves-call (Harmless-redis _))
        (Preserves-seq (mark_confirmed-Preserves cfg e.id txid confirmed) (settle-Preserves e))

  pub reconcile-Preserves : (cfg : Settings) (e : StreamEntry) → Preserves rpc P (reconcile cfg e)
  unfolding reconcile
  reconcile-Preserves cfg e =
      Preserves-bind (find_paid_tx-Preserves e.id) (skip_found-Preserves cfg e)

  proceed_if-Preserves : (e : StreamEntry) (b : Bool) → Preserves rpc P (proceed_if e b)
  proceed_if-Preserves e true = Preserves-pure tt
  proceed_if-Preserves e false =
      Preserves-seq (Preserves-call (Harmless-redis _)) (settle-Preserves e)

  pub claim_slot-Preserves : (e : StreamEntry) → Preserves rpc P (claim_slot e)
  unfolding claim_slot
  claim_slot-Preserves e =
      Preserves-bind (Preserves-require (Harmless-redis _)) (proceed_if-Preserves e)
