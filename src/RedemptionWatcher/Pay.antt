-- ===== src/RedemptionWatcher/Pay.antt =====
-- crates/redemption-watcher/src/payouts.rs: the second half of an entry in `drain_once`, from the
-- treasury snapshot to the confirmed payout.
use cr_faucet.Common.{
  ℕ, zero, suc, ◌+◌, ltb, Bool, true, false, Option, none, some, Bytes, if◌then◌else◌,
}
use cr_faucet.Common.Int.{ℤ, pos_part, neg_part, ◌-ℤ◌, wrap_i64}
use cr_faucet.PoolCore.Redemption.{stamp_amount}
use cr_faucet.PoolCore.Store.{
  StreamEntry, pending, paused, failed, TreasurySnapshot, treasury_snapshot, pending_atomic,
}
use cr_faucet.PoolCore.Store.Queue.{mark_redemption_sent}
use cr_faucet.RedemptionWatcher.ProRata.{Quote, pause, dust, locked, pay, quote}
use cr_faucet.RedemptionWatcher.Wallet.{WalletRpc, RpcError, TransferReply, accepted, rejected}
use cr_faucet.RedemptionWatcher.World.{
  processed, defer, bail, next, M, ◌>>=◌, ◌>>◌, pure, leave, call, require, redis, wallet_read,
}
use cr_faucet.RedemptionWatcher.Calls.{
  codes, hset_state, amount_of, is_permanent_transfer_error, oldest_unspent, or_zero, mark_call,
  transfer_call,
}
use cr_faucet.RedemptionWatcher.Guards.{Settings, of_result, settle}

abbrev ⊤ : Type 0
⊤ = Unit

-- A snapshot is of use for 120 seconds.
unfoldable pub is_stale : ℤ → TreasurySnapshot → Bool
is_stale now snap =
    let age = wrap_i64 (now -ℤ snap.as_of_unix) in ltb 120 (pos_part age + neg_part age)

-- `ok().flatten()`
abbrev flatten : {A : Type 0} → Option (Option A) → Option A
flatten none = none
flatten (some o) = o

module _ {rpc : WalletRpc} where
  -- Back to `pending`, and out of the loop.
  unfoldable pub roll_back : {A : Type 0} → StreamEntry → M rpc A
  roll_back e = do require (redis (hset_state e.id pending)); leave defer

  abbrev pub fresh_snapshot : StreamEntry → Option TreasurySnapshot → M rpc TreasurySnapshot
  fresh_snapshot e none w = roll_back e w
  fresh_snapshot e (some snap) w = if is_stale w.now snap then roll_back e w else (next snap, w)

  -- The treasury snapshot and the live pending total, and what they make of the entry.
  unfoldable pub look_up_quote : Settings → StreamEntry → M rpc Quote
  look_up_quote cfg e = do
    read ← call (redis (λ s. (some (treasury_snapshot s), s)))
    snap ← fresh_snapshot e (flatten read)
    pending_now ← require (redis (λ s. (some (pending_atomic s), s)))
    pure (quote cfg.monero snap (pos_part pending_now) (amount_of e))

  -- `mark_processed`, its error ignored.
  unfoldable pub note_dead : Settings → ℕ → Bytes → M rpc ⊤
  note_dead cfg id why =
      if cfg.has_marker then (do call (mark_call cfg.signer id why 0); pure tt) else pure tt

  -- HSETNX sets nothing, since the field is there.
  unfoldable pub act_on : Settings → StreamEntry → Quote → M rpc ℕ
  act_on cfg e pause = do require (redis (hset_state e.id paused)); settle e; leave processed
  act_on cfg e dust = do
    note_dead cfg e.id (codes "dust-skipped")
    require (redis (hset_state e.id failed))
    settle e
    leave processed
  act_on cfg e locked = do
    require (redis (hset_state e.id paused))
    call (redis (λ s. (some tt, s)))
    require (redis (hset_state e.id pending))
    leave processed
  act_on cfg e (pay p) = pure p

  abbrev pub elapse : M rpc ⊤
  elapse w = (next tt, record w { wallet = rpc.elapse w.wallet })

  abbrev pub poll_again : Option ℕ → M rpc (Option Bool) → M rpc (Option Bool)
  poll_again none more = pure none
  poll_again (some h) more = if ltb 0 h then pure (some true) else more

  -- One poll, and `polls` more at ten seconds' distance.
  unfoldable pub wait_confirmed : Bytes → ℕ → M rpc (Option Bool)
  wait_confirmed txid zero = do
    height ← call (wallet_read (rpc.height_of_tx txid))
    poll_again height (pure (some false))
  wait_confirmed txid (suc polls) =
      let rest = elapse >> wait_confirmed txid polls in
      do height ← call (wallet_read (rpc.height_of_tx txid)); poll_again height rest

  -- `oldest_unspent_height().await.unwrap_or(0)`, and the token's record of the payout.
  abbrev pub record_if : Settings → ℕ → Bytes → Option Bool → M rpc ⊤
  record_if cfg id txid (some true) = do
    outputs ← call (wallet_read rpc.incoming_transfers)
    call (
        mark_call cfg.signer id txid
          (elim outputs [ none ↦ 0 | some os ↦ or_zero (oldest_unspent os) ]))
    pure tt
  record_if cfg id txid (some false) = pure tt
  record_if cfg id txid none = pure tt

  unfoldable pub confirm : Settings → ℕ → Bytes → M rpc ⊤
  confirm cfg id txid =
      if cfg.has_marker
      then (do mined ← wait_confirmed txid cfg.monero.confirm_polls; record_if cfg id txid mined)
      else pure tt

  unfoldable pub refused : Settings → StreamEntry → RpcError → M rpc ⊤
  refused cfg e error =
      if is_permanent_transfer_error error
      then (do
        note_dead cfg e.id (codes "FAILED:permanent")
        call (redis (hset_state e.id failed))
        settle e)
      else (do call (redis (hset_state e.id pending)); leave bail)

  abbrev pub after_transfer : Settings → StreamEntry → TransferReply → M rpc ⊤
  after_transfer cfg e (rejected error) = refused cfg e error
  after_transfer cfg e (accepted tx fee) = do
    require (redis (λ s. of_result (mark_redemption_sent e.id tx s)))
    confirm cfg e.id tx
    settle e

  unfoldable pub pay_out : Settings → StreamEntry → ℕ → M rpc ⊤
  pay_out cfg e payout = do
    reply ← require (transfer_call e.id (stamp_amount payout e.id) e.xmr_addr)
    after_transfer cfg e reply
