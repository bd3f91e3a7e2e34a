-- ===== src/RedemptionWatcher/NoDoublePay/Entry.antt =====
-- One entry of `drain_once` (crates/redemption-watcher/src/payouts.rs) keeps the invariant of the
-- payouts, whatever goes wrong with its calls.
use cr_faucet.Common.{ℕ, ◌≡◌, ◌≤◌, ◌<◌, true, some, List, Bytes, inl, refl}
use cr_faucet.Common.Int.{pos_part}
use cr_faucet.Contracts.MiningPoolToken.{Token}
use cr_faucet.PoolCore.Redemption.{stamp_mod, stamp_amount, stamp_amount_correct, matches_stamp}
use cr_faucet.PoolCore.Store.{StreamEntry, TreasurySnapshot, paused, pending, failed}
use cr_faucet.RedemptionWatcher.ProRata.{Quote, pause, dust, locked, pay, quote}
use cr_faucet.RedemptionWatcher.ProRata.Bounds.{quote_limits}
use cr_faucet.RedemptionWatcher.Wallet.{
  result_or_null, WalletRpc, IsReliable, Shows, TransferReply, accepted, rejected,
}
use cr_faucet.RedemptionWatcher.World.{
  World, Payment, M, pure, call, require, redis, next_fault, later_faults, processed,
}
use cr_faucet.RedemptionWatcher.Calls.{transfer_call, logged, amount_of, codes, hset_state}
use cr_faucet.RedemptionWatcher.Guards.{Settings, settle}
use cr_faucet.RedemptionWatcher.Pay.{note_dead, look_up_quote, act_on, pay_out}
use cr_faucet.RedemptionWatcher.Preserves.{
  Holds, under_holds, Preserves, IsClosed, Preserves-call, Preserves-require, Harmless-redis,
  Preserves-or_bail,
}
use cr_faucet.RedemptionWatcher.Preserves.PayStages.{
  fresh_snapshot-Preserves, act_on-Preserves, after_transfer-Preserves,
}
use cr_faucet.RedemptionWatcher.Leads.{
  Stops, Stops-leave, Stops-seq, Leads, Leads-bind, Preserves-Leads,
}
use cr_faucet.RedemptionWatcher.NoDoublePay.Safe.{Safe, IsFresh, Safe-IsClosed, Safe-transfer}
use cr_faucet.RedemptionWatcher.NoDoublePay.Guards.{Unpaid}

module _ (cfg : Settings) (rpc : WalletRpc) (first : ℕ) (reliable : IsReliable rpc first) where
  pub closed : IsClosed rpc (Safe cfg rpc first)
  closed = Safe-IsClosed cfg rpc first reliable

  pub Unpaid-IsClosed : (id : ℕ) → IsClosed rpc (Unpaid cfg rpc first reliable id)
  Unpaid-IsClosed id = record {
    marks = λ signer i txid height wal t t' log e h.
        (closed.marks signer i txid height wal t t' log e h.0, h.1);
    elapses = λ wal t log h. (closed.elapses wal t log h.0, h.1);
  }

  pub stays :
      {A : Type 0} {m : M rpc A} (id : ℕ)
      → Preserves rpc (Unpaid cfg rpc first reliable id) m
      → Leads rpc
          (Safe cfg rpc first)
          (Holds rpc (Unpaid cfg rpc first reliable id))
          m
          (λ _. Holds rpc (Unpaid cfg rpc first reliable id))
  stays id p = Preserves-Leads (λ w h. h.0) p

  quote_leads :
      (e : StreamEntry) (snap : TreasurySnapshot) (n : ℕ)
      → Leads rpc
          (Safe cfg rpc first)
          (Holds rpc (Unpaid cfg rpc first reliable e.id))
          (pure (quote cfg.monero snap n (amount_of e)))
          (λ q w.
            Holds rpc (Unpaid cfg rpc first reliable e.id) w
            × ((p : ℕ) → q ≡ pay p → stamp_mod ≤ p))
  quote_leads e snap n = record {
    run = λ w h. (
      h.0,
      λ q here. (
        h,
        λ p paid.
            let quoted : quote cfg.monero snap n (amount_of e) ≡ pay p = cc in
            (quote_limits cfg.monero snap n (amount_of e) p quoted).0,
      ),
    );
  }

  pub look_up_quote_leads :
      (e : StreamEntry)
      → Leads rpc
          (Safe cfg rpc first)
          (Holds rpc (Unpaid cfg rpc first reliable e.id))
          (look_up_quote cfg e)
          (λ q w.
            Holds rpc (Unpaid cfg rpc first reliable e.id) w
            × ((p : ℕ) → q ≡ pay p → stamp_mod ≤ p))
  unfolding look_up_quote
  look_up_quote_leads e = Leads-bind (stays e.id (Preserves-call (Harmless-redis _))) (λ read.
      Leads-bind (stays e.id (fresh_snapshot-Preserves (Unpaid-IsClosed e.id) e _)) (λ snap.
        Leads-bind (stays e.id (Preserves-require (Harmless-redis _)))
          (λ pending_now. quote_leads e snap (pos_part pending_now))))

  halts :
      (e : StreamEntry) (q : Quote)
      → Stops (act_on {rpc = rpc} cfg e q)
      → Leads rpc
          (Safe cfg rpc first)
          (λ w.
            Holds rpc (Unpaid cfg rpc first reliable e.id) w
            × ((p : ℕ) → q ≡ pay p → stamp_mod ≤ p))
          (act_on cfg e q)
          (λ p w. Holds rpc (Unpaid cfg rpc first reliable e.id) w × (stamp_mod ≤ p))
  halts e q s = record {
    run = λ w h. ((act_on-Preserves closed cfg e q).run w h.0.0, λ p here. absurd (s.run w p here));
  }

  pub act_on_leads :
      (e : StreamEntry) (q : Quote)
      → Leads rpc
          (Safe cfg rpc first)
          (λ w.
            Holds rpc (Unpaid cfg rpc first reliable e.id) w
            × ((p : ℕ) → q ≡ pay p → stamp_mod ≤ p))
          (act_on cfg e q)
          (λ p w. Holds rpc (Unpaid cfg rpc first reliable e.id) w × (stamp_mod ≤ p))
  unfolding act_on
  act_on_leads e pause = halts e pause (
      Stops-seq (require (redis (hset_state e.id paused))) _
        (Stops-seq (settle e) _ (Stops-leave processed)))
  act_on_leads e dust = halts e dust (
      Stops-seq (note_dead cfg e.id (codes "dust-skipped")) _ (
        Stops-seq (require (redis (hset_state e.id failed))) _
          (Stops-seq (settle e) _ (Stops-leave processed))))
  act_on_leads e locked = halts e locked (
      Stops-seq (require (redis (hset_state e.id paused))) _ (
        Stops-seq (call (redis (λ s. (some tt, s)))) _
          (Stops-seq (require (redis (hset_state e.id pending))) _ (Stops-leave processed))))
  act_on_leads e (pay p) = record { run = λ w h. (h.0.0, λ q here. (h.0, h.1 q cc)) }

  logged-Safe :
      (id a : ℕ) (wal : rpc.Wallet) (t : Token) (log : List Payment) (reply : TransferReply)
      → ((tx : Bytes) (fee : ℕ)
          → reply ≡ accepted tx fee
          → Shows (result_or_null (rpc.get_transfers wal)) first a)
      → (0 < a) × (matches_stamp a id ≡ true)
      → IsFresh id log
      → Safe cfg rpc first wal t log
      → Safe cfg rpc first wal t (logged id a reply log)
  logged-Safe id a wal t log (rejected e) shows stamped fresh h = h
  logged-Safe id a wal t log (accepted tx fee) shows stamped fresh h =
      ((fresh, h.0), (stamped, h.1), (inl (shows tx fee refl), h.2))

  transfer-Holds :
      (e : StreamEntry) (payout : ℕ)
      → stamp_mod ≤ payout
      → (w : World rpc) → Holds rpc (Unpaid cfg rpc first reliable e.id) w
      → Holds rpc
          (Safe cfg rpc first)
          (transfer_call e.id (stamp_amount payout e.id) e.xmr_addr w).1
  unfolding transfer_call
  transfer-Holds e payout unit w h =
      let a = stamp_amount payout e.id in
      let (positive, _, _, stamped) = stamp_amount_correct payout e.id unit in
      logged-Safe e.id a _ w.token w.log _
        (λ tx fee. reliable.transfer_shows a e.xmr_addr w.wallet tx fee) (positive, stamped) h.1
        (Safe-transfer cfg rpc first reliable a e.xmr_addr w.wallet w.token w.log h.0)

  transfer_leads :
      (e : StreamEntry) (payout : ℕ)
      → Leads rpc
          (Safe cfg rpc first)
          (λ w. Holds rpc (Unpaid cfg rpc first reliable e.id) w × (stamp_mod ≤ payout))
          (call (transfer_call e.id (stamp_amount payout e.id) e.xmr_addr))
          (λ _. Holds rpc (Safe cfg rpc first))
  unfolding call
  transfer_leads e payout = record {
    run = λ w h.
        let u = record w { faults = later_faults w.faults } in
        let held =
          under_holds (Holds rpc (Safe cfg rpc first)) (next_fault w.faults) u
            (transfer_call e.id (stamp_amount payout e.id) e.xmr_addr u) h.0.0
            (transfer-Holds e payout h.1 u h.0) in
        (held, λ a next. held);
  }

  pub pay_out_leads :
      (e : StreamEntry) (payout : ℕ)
      → Leads rpc
          (Safe cfg rpc first)
          (λ w. Holds rpc (Unpaid cfg rpc first reliable e.id) w × (stamp_mod ≤ payout))
          (pay_out cfg e payout)
          (λ _. Holds rpc (Safe cfg rpc first))
  unfolding pay_out
  pay_out_leads e payout =
      Leads-bind
        (Leads-bind (transfer_leads e payout)
          (λ o. Preserves-Leads (λ w h. h) (Preserves-or_bail o)))
        (λ reply. Preserves-Leads (λ w h. h) (after_transfer-Preserves closed cfg e reply))
