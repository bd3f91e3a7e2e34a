-- ===== src/RedemptionWatcher/PaysOut.antt =====
-- crates/redemption-watcher/src/payouts.rs: an entry that nothing stands against is paid out, when no
-- call goes wrong.
use cr_faucet.Common.{
  ℕ, ◌≡◌, ltb, false, none, some, List, [], ◌∷◌, Bytes, refl, ◌∙◌, sym, subst, ap, Bool-cases, inl,
  inr,
}
use cr_faucet.Common.Dict.{lookup}
use cr_faucet.Common.Int.{ℤ, pos_part}
use cr_faucet.Common.Results.{ok}
use cr_faucet.Contracts.MiningPoolToken.{Token}
use cr_faucet.PoolCore.Redemption.{stamp_amount}
use cr_faucet.PoolCore.Store.{
  Redis, StreamEntry, TreasurySnapshot, pending, in_flight, treasury_snapshot, pending_atomic,
}
use cr_faucet.PoolCore.Store.Queue.{set_state, try_mark_redemption_in_flight}
use cr_faucet.RedemptionWatcher.ProRata.{Quote, pay, quote}
use cr_faucet.RedemptionWatcher.Wallet.{
  result_or_null, WalletRpc, accepted, stamp_match_in_result, min_height_of,
}
use cr_faucet.RedemptionWatcher.World.{
  World, Payment, Flow, next, stop, call, require, M, ◌>>=◌, ◌>>◌, pure, redis,
}
use cr_faucet.RedemptionWatcher.Calls.{amount_of, transfer_call}
use cr_faucet.RedemptionWatcher.Guards.{
  Settings, park_above_cap, check_marker, find_paid_tx, reconcile, claim_slot,
}
use cr_faucet.RedemptionWatcher.Pay.{
  is_stale, fresh_snapshot, look_up_quote, act_on, after_transfer, pay_out,
}
use cr_faucet.RedemptionWatcher.Payouts.{process_entry}
use cr_faucet.RedemptionWatcher.Preserves.{IsClosed}
use cr_faucet.RedemptionWatcher.Preserves.PayStages.{after_transfer-Preserves}
use cr_faucet.RedemptionWatcher.NoDoublePay.Guards.{NotMarked}

module _ {rpc : WalletRpc} where
  goes_on :
      {A B : Type 0} (m : M rpc A) (f : A → M rpc B) (w w' : World rpc) (a : A)
      → m w ≡ (next a, w')
      → (m >>= f) w ≡ f a w'
  goes_on {B} m f w w' a h =
      ap (λ r. elim r.0 as (λ _. Flow B × World rpc) [ next x ↦ f x r.1 | stop x ↦ (stop x, r.1) ])
        h

module _ (cfg : Settings) (rpc : WalletRpc) (e : StreamEntry) (t : Token) (wal : rpc.Wallet)
    (now : ℤ) (log : List Payment) where
  -- A world whose calls all go well.
  abbrev calm : Redis → World rpc
  calm s = record { redis = s; token = t; wallet = wal; now = now; faults = []; log = log }

  park_goes_on :
      (s : Redis)
      → ltb cfg.monero.per_tx_cap_atomic (amount_of e) ≡ false
      → park_above_cap cfg e (calm s) ≡ (next tt, calm s)
  unfolding park_above_cap
  park_goes_on s h = rw h refl

  marker_goes_on :
      (s : Redis) → NotMarked cfg e.id t → check_marker cfg e (calm s) ≡ (next tt, calm s)
  unfolding check_marker call
  marker_goes_on s h = elim (Bool-cases cfg.has_marker) [
    | inl q ↦ rw (q, h q) refl
    | inr q ↦ rw q refl
  ]

  reconcile_goes_on :
      (s : Redis)
      → stamp_match_in_result
          (result_or_null (rpc.get_transfers wal))
          e.id
          (min_height_of (rpc.get_height wal))
        ≡ ok none
      → reconcile cfg e (calm s) ≡ (next tt, calm s)
  unfolding reconcile find_paid_tx call
  reconcile_goes_on s h = rw h refl

  slot_goes_on :
      (s : Redis)
      → lookup e.id s.state ≡ some pending
      → claim_slot e (calm s) ≡ (next tt, calm (set_state e.id in_flight s))
  unfolding claim_slot call try_mark_redemption_in_flight
  slot_goes_on s h = rw h refl

  fresh_goes_on :
      (s : Redis) (snap : TreasurySnapshot)
      → is_stale now snap ≡ false
      → fresh_snapshot e (some snap) (calm s) ≡ (next snap, calm s)
  fresh_goes_on s snap f = rw f refl

  quote_goes_on :
      (s : Redis) (snap : TreasurySnapshot)
      → treasury_snapshot s ≡ some snap
      → is_stale now snap ≡ false
      → look_up_quote cfg e (calm s)
        ≡ (next (quote cfg.monero snap (pos_part (pending_atomic s)) (amount_of e)), calm s)
  unfolding look_up_quote call
  quote_goes_on s snap h f = rw h (
      goes_on (fresh_snapshot e (some snap))
        (λ found. do
          pending_now ← require (redis (λ u. (some (pending_atomic u), u)))
          pure (quote cfg.monero found (pos_part pending_now) (amount_of e)))
        (calm s) (calm s) snap (fresh_goes_on s snap f))

  abbrev LogsPayment : ℕ → List Payment → Type 0
  LogsPayment p l = l ≡ record { id = e.id; amount = stamp_amount p e.id } ∷ log

  after_keeps :
      (tx : Bytes) (fee : ℕ) (w : World rpc) (l : List Payment)
      → w.log ≡ l
      → (after_transfer cfg e (accepted tx fee) w).1.log ≡ l
  after_keeps tx fee w l h =
      let closed : IsClosed rpc (λ _ _ l'. l' ≡ l) = record {
        marks = λ signer id txid height u t t' l' e' k. k;
        elapses = λ u t l' k. k;
      } in
      (after_transfer-Preserves closed cfg e (accepted tx fee)).run w h

  transfer_goes_on :
      (s : Redis) (p : ℕ) (tx : Bytes) (fee : ℕ)
      → (rpc.transfer (stamp_amount p e.id) e.xmr_addr wal).0 ≡ accepted tx fee
      → LogsPayment p (pay_out cfg e p (calm s)).1.log
  unfolding pay_out transfer_call call
  transfer_goes_on s p tx fee h =
      let sent : World rpc = record {
        redis = s;
        token = t;
        wallet = (rpc.transfer (stamp_amount p e.id) e.xmr_addr wal).1;
        now = now;
        faults = [];
        log = record { id = e.id; amount = stamp_amount p e.id } ∷ log;
      } in
      rw h (after_keeps tx fee sent sent.log refl)

  claimed_quote :
      (s : Redis) (snap : TreasurySnapshot) (p : ℕ)
      → treasury_snapshot s ≡ some snap
      → is_stale now snap ≡ false
      → quote cfg.monero snap (pos_part (pending_atomic s)) (amount_of e) ≡ pay p
      → look_up_quote cfg e (calm (set_state e.id in_flight s))
        ≡ (next (pay p), calm (set_state e.id in_flight s))
  unfolding set_state treasury_snapshot pending_atomic
  claimed_quote s snap p h f q =
      quote_goes_on (set_state e.id in_flight s) snap h f
      ∙ ap (λ x. (next x, calm (set_state e.id in_flight s))) q

  -- A pending redemption is paid out if nothing stands against it: its amount is within the cap, the
  -- L2, if it is asked, has no record of it, the search of the history comes back with nothing, the
  -- snapshot is fresh and gives a quote to pay, the wallet accepts the transfer, and no call goes
  -- wrong. The log then has one payout more, of the stamped quote to this redemption.
  pub process_entry_pays :
      (s : Redis) (snap : TreasurySnapshot) (p : ℕ) (tx : Bytes) (fee : ℕ)
      → ltb cfg.monero.per_tx_cap_atomic (amount_of e) ≡ false
      → NotMarked cfg e.id t
      → stamp_match_in_result
          (result_or_null (rpc.get_transfers wal))
          e.id
          (min_height_of (rpc.get_height wal))
        ≡ ok none
      → lookup e.id s.state ≡ some pending
      → treasury_snapshot s ≡ some snap
      → is_stale now snap ≡ false
      → quote cfg.monero snap (pos_part (pending_atomic s)) (amount_of e) ≡ pay p
      → (rpc.transfer (stamp_amount p e.id) e.xmr_addr wal).0 ≡ accepted tx fee
      → (process_entry cfg e (calm s)).1.log
        ≡ record { id = e.id; amount = stamp_amount p e.id } ∷ log
  unfolding process_entry act_on
  process_entry_pays s snap p tx fee small unmarked unpaid queued read fresh quoted paid =
      let u = set_state e.id in_flight s in
      let pays = λ (q : Quote). act_on cfg e q >>= pay_out cfg e in
      let quotes = look_up_quote cfg e >>= pays in
      let slots = claim_slot e >> quotes in
      let searches = reconcile cfg e >> slots in
      let checks = check_marker cfg e >> searches in
      let run : process_entry cfg e (calm s) ≡ pay_out cfg e p (calm u) =
        goes_on (park_above_cap cfg e) (λ _. checks) (calm s) (calm s) tt (park_goes_on s small)
        ∙ goes_on (check_marker cfg e) (λ _. searches) (calm s) (calm s) tt
            (marker_goes_on s unmarked)
        ∙ goes_on (reconcile cfg e) (λ _. slots) (calm s) (calm s) tt (reconcile_goes_on s unpaid)
        ∙ goes_on (claim_slot e) (λ _. quotes) (calm s) (calm u) tt (slot_goes_on s queued)
        ∙ goes_on (look_up_quote cfg e) pays (calm u) (calm u) (pay p)
            (claimed_quote s snap p read fresh quoted) in
      subst (λ r. r.1.log ≡ record { id = e.id; amount = stamp_amount p e.id } ∷ log) (sym run)
        (transfer_goes_on u p tx fee paid)
