-- ===== src/RedemptionWatcher/Guards.antt =====
-- crates/redemption-watcher/src/payouts.rs: the guards of `drain_once` that stand before a payout.
-- A stage that settles an entry leaves by `processed`, one that waits leaves by `defer`, and `?`
-- leaves by `bail`.
use cr_faucet.Common.{ℕ, ltb, Bool, true, false, Option, none, some, Bytes, if◌then◌else◌}
use cr_faucet.Common.Results.{Result, ok, err}
use cr_faucet.Contracts.MiningPoolToken.{is_processed}
use cr_faucet.PoolCore.Store.{Redis, StreamEntry, sent, paused, StoreError}
use cr_faucet.PoolCore.Store.Queue.{try_mark_redemption_in_flight, mark_redemption_sent}
use cr_faucet.RedemptionWatcher.ProRata.{MoneroConfig}
use cr_faucet.RedemptionWatcher.Wallet.{
  WalletRpc, result_or_null, stamp_match_in_result, min_height_of,
}
use cr_faucet.RedemptionWatcher.World.{
  processed, defer, M, ◌>>=◌, ◌>>◌, pure, leave, call, require, redis, wallet_read, token_read,
}
use cr_faucet.RedemptionWatcher.Calls.{hset_state, xack, amount_of, or_zero, mark_call}

abbrev ⊤ : Type 0
⊤ = Unit

-- What `Payouts` is configured with: the Monero settings, whether it has a `RedemptionMarker`, and
-- the address that its transactions come from.
pub record Settings : Type 0 where
  pub monero : MoneroConfig
  pub has_marker : Bool
  pub signer : ℕ

-- The store's scripts as commands, whose refusal by the server is an error.
abbrev pub of_result : {A : Type 0} → Result StoreError A × Redis → Option A × Redis
of_result (ok a, s) = (some a, s)
of_result (err e, s) = (none, s)

module _ {rpc : WalletRpc} where
  -- Every settled entry is acknowledged and counted.
  unfoldable pub settle : StreamEntry → M rpc ⊤
  settle e = do require (redis (xack e.entry_id)); leave processed

  unfoldable pub park_above_cap : Settings → StreamEntry → M rpc ⊤
  unfolding settle
  park_above_cap cfg e =
      if ltb cfg.monero.per_tx_cap_atomic (amount_of e)
      then (do require (redis (hset_state e.id paused)); settle e)
      else pure tt

  abbrev pub skip_processed : StreamEntry → Option Bool → M rpc ⊤
  skip_processed e none = leave defer
  skip_processed e (some true) = do require (redis (hset_state e.id sent)); settle e
  skip_processed e (some false) = pure tt

  -- The durable guard: has the L2 recorded this redemption as paid?
  unfoldable pub check_marker : Settings → StreamEntry → M rpc ⊤
  check_marker cfg e =
      if cfg.has_marker
      then (do done ← call (token_read (is_processed e.id)); skip_processed e done)
      else pure tt

  -- `wallet_height().await.unwrap_or(0)`, then the search of the history.
  unfoldable pub find_paid_tx : ℕ → M rpc (Option (Option (Bytes × Bool)))
  find_paid_tx id = do
    tip ← call (wallet_read rpc.get_height)
    answer ← call (wallet_read (λ w. result_or_null (rpc.get_transfers w)))
    pure (elim answer [
      | none ↦ none
      | some ts ↦ elim (stamp_match_in_result ts id (min_height_of (or_zero tip))) [
        | ok found ↦ some found
        | err _ ↦ none
      ]
    ])

  unfoldable pub mark_confirmed : Settings → ℕ → Bytes → Bool → M rpc ⊤
  mark_confirmed cfg id txid false = pure tt
  mark_confirmed cfg id txid true =
      if cfg.has_marker then (do call (mark_call cfg.signer id txid 0); pure tt) else pure tt

  abbrev pub skip_found : Settings → StreamEntry → Option (Option (Bytes × Bool)) → M rpc ⊤
  skip_found cfg e none = leave defer
  skip_found cfg e (some none) = pure tt
  skip_found cfg e (some (some (txid, confirmed))) = do
    call (redis (λ s. of_result (mark_redemption_sent e.id txid s)))
    mark_confirmed cfg e.id txid confirmed
    settle e

  -- The reconciliation guard: was a payout with this id's stamp broadcast already?
  unfoldable pub reconcile : Settings → StreamEntry → M rpc ⊤
  reconcile cfg e = do found ← find_paid_tx e.id; skip_found cfg e found

  abbrev pub proceed_if : StreamEntry → Bool → M rpc ⊤
  proceed_if e true = pure tt
  proceed_if e false = do call (redis (λ s. (some tt, s))); settle e

  -- The transfer slot: only the step from `pending` to `in_flight` goes on.
  unfoldable pub claim_slot : StreamEntry → M rpc ⊤
  claim_slot e = do
    claimed ←
        require (redis (λ s. let (b, s') = try_mark_redemption_in_flight e.id s in (some b, s')))
    proceed_if e claimed
