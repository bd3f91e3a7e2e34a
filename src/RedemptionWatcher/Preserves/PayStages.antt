-- ===== src/RedemptionWatcher/Preserves/PayStages.antt =====
-- The stages of crates/redemption-watcher/src/payouts.rs from the snapshot to the confirmation, without
-- the transfer itself, keep an invariant of the wallet, the token and the log.
use cr_faucet.Common.{
  ℕ, zero, suc, Bool, true, false, Option, none, some, List, Bytes, if◌then◌else◌,
}
use cr_faucet.Contracts.MiningPoolToken.{Token}
use cr_faucet.PoolCore.Store.{StreamEntry, TreasurySnapshot}
use cr_faucet.RedemptionWatcher.ProRata.{Quote, pause, dust, locked, pay}
use cr_faucet.RedemptionWatcher.Wallet.{TransferReply, accepted, rejected, WalletRpc, RpcError}
use cr_faucet.RedemptionWatcher.World.{World, Payment, M, processed, defer, bail, next}
use cr_faucet.RedemptionWatcher.Guards.{Settings}
use cr_faucet.RedemptionWatcher.Pay.{
  is_stale, roll_back, fresh_snapshot, look_up_quote, note_dead, act_on, elapse, poll_again,
  wait_confirmed, record_if, confirm, refused, after_transfer,
}
use cr_faucet.RedemptionWatcher.Preserves.{
  Preserves, IsClosed, Preserves-pure, Preserves-leave, Preserves-bind, Preserves-seq,
  Preserves-call, Preserves-require, Preserves-if, Harmless-redis, Harmless-wallet_read,
  Harmless-mark_call, Holds,
}
use cr_faucet.RedemptionWatcher.Preserves.Stages.{settle-Preserves}

module _ {rpc : WalletRpc} {P : rpc.Wallet → Token → List Payment → Type 0}
    (c : IsClosed rpc P) where
  pub roll_back-Preserves : (A : Type 0) (e : StreamEntry) → Preserves rpc P (roll_back {A = A} e)
  unfolding roll_back
  roll_back-Preserves A e =
      Preserves-seq (Preserves-require (Harmless-redis _)) (Preserves-leave defer)

  usable :
      (e : StreamEntry) (snap : TreasurySnapshot) (stale : Bool) (w : World rpc)
      → Holds rpc P w
      → Holds rpc P (if stale then roll_back e w else (next snap, w)).1
  usable e snap true w h = (roll_back-Preserves TreasurySnapshot e).run w h
  usable e snap false w h = h

  pub fresh_snapshot-Preserves :
      (e : StreamEntry) (o : Option TreasurySnapshot) → Preserves rpc P (fresh_snapshot e o)
  fresh_snapshot-Preserves e none = roll_back-Preserves TreasurySnapshot e
  fresh_snapshot-Preserves e (some snap) = record {
    run = λ w h. usable e snap (is_stale w.now snap) w h;
  }

  pub look_up_quote-Preserves :
      (cfg : Settings) (e : StreamEntry) → Preserves rpc P (look_up_quote cfg e)
  unfolding look_up_quote
  look_up_quote-Preserves cfg e = Preserves-bind (Preserves-call (Harmless-redis _)) (λ read.
      Preserves-bind (fresh_snapshot-Preserves e _)
        (λ snap. Preserves-bind (Preserves-require (Harmless-redis _)) (λ n. Preserves-pure _)))

  note_dead-Preserves :
      (cfg : Settings) (id : ℕ) (why : Bytes) → Preserves rpc P (note_dead cfg id why)
  unfolding note_dead
  note_dead-Preserves cfg id why =
      Preserves-if _
        (Preserves-seq (Preserves-call (Harmless-mark_call _ _ _ _ c)) (Preserves-pure tt))
        (Preserves-pure tt)

  pub act_on-Preserves :
      (cfg : Settings) (e : StreamEntry) (q : Quote) → Preserves rpc P (act_on cfg e q)
  unfolding act_on
  act_on-Preserves cfg e pause =
      Preserves-seq (Preserves-require (Harmless-redis _))
        (Preserves-seq (settle-Preserves c e) (Preserves-leave processed))
  act_on-Preserves cfg e dust = Preserves-seq (note_dead-Preserves cfg e.id _) (
      Preserves-seq (Preserves-require (Harmless-redis _))
        (Preserves-seq (settle-Preserves c e) (Preserves-leave processed)))
  act_on-Preserves cfg e locked = Preserves-seq (Preserves-require (Harmless-redis _)) (
      Preserves-seq (Preserves-call (Harmless-redis _))
        (Preserves-seq (Preserves-require (Harmless-redis _)) (Preserves-leave processed)))
  act_on-Preserves cfg e (pay p) = Preserves-pure p

  elapse-Preserves : Preserves rpc P elapse
  elapse-Preserves = record { run = λ w h. c.elapses w.wallet w.token w.log h }

  poll_again-Preserves :
      (height : Option ℕ) (more : M rpc (Option Bool))
      → Preserves rpc P more
      → Preserves rpc P (poll_again height more)
  poll_again-Preserves none more p = Preserves-pure none
  poll_again-Preserves (some h) more p = Preserves-if _ (Preserves-pure (some true)) p

  wait_confirmed-Preserves :
      (txid : Bytes) (polls : ℕ) → Preserves rpc P (wait_confirmed txid polls)
  unfolding wait_confirmed
  wait_confirmed-Preserves txid zero =
      Preserves-bind (Preserves-call (Harmless-wallet_read _))
        (λ h. poll_again-Preserves h _ (Preserves-pure (some false)))
  wait_confirmed-Preserves txid (suc polls) =
      Preserves-bind (Preserves-call (Harmless-wallet_read _)) (λ h.
        poll_again-Preserves h _
          (Preserves-seq elapse-Preserves (wait_confirmed-Preserves txid polls)))

  record_if-Preserves :
      (cfg : Settings) (id : ℕ) (txid : Bytes) (mined : Option Bool)
      → Preserves rpc P (record_if cfg id txid mined)
  record_if-Preserves cfg id txid (some true) =
      Preserves-bind (Preserves-call (Harmless-wallet_read _)) (λ outputs.
        Preserves-seq (Preserves-call (Harmless-mark_call _ _ _ _ c)) (Preserves-pure tt))
  record_if-Preserves cfg id txid (some false) = Preserves-pure tt
  record_if-Preserves cfg id txid none = Preserves-pure tt

  pub confirm-Preserves :
      (cfg : Settings) (id : ℕ) (txid : Bytes) → Preserves rpc P (confirm cfg id txid)
  unfolding confirm
  confirm-Preserves cfg id txid =
      Preserves-if _
        (Preserves-bind (wait_confirmed-Preserves txid _) (record_if-Preserves cfg id txid))
        (Preserves-pure tt)

  pub refused-Preserves :
      (cfg : Settings) (e : StreamEntry) (error : RpcError) → Preserves rpc P (refused cfg e error)
  unfolding refused
  refused-Preserves cfg e error =
      Preserves-if _
        (Preserves-seq (note_dead-Preserves cfg e.id _)
          (Preserves-seq (Preserves-call (Harmless-redis _)) (settle-Preserves c e)))
        (Preserves-seq (Preserves-call (Harmless-redis _)) (Preserves-leave bail))

  pub after_transfer-Preserves :
      (cfg : Settings) (e : StreamEntry) (reply : TransferReply)
      → Preserves rpc P (after_transfer cfg e reply)
  after_transfer-Preserves cfg e (rejected error) = refused-Preserves cfg e error
  after_transfer-Preserves cfg e (accepted tx fee) =
      Preserves-seq (Preserves-require (Harmless-redis _))
        (Preserves-seq (confirm-Preserves cfg e.id tx) (settle-Preserves c e))
