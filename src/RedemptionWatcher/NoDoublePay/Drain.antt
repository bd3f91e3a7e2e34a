-- ===== src/RedemptionWatcher/NoDoublePay/Drain.antt =====
-- `drain_once` of crates/redemption-watcher/src/payouts.rs, again and again, with crashes and losses
-- of the Redis data in between.
use mathlib.Core.Path.{subst, sym}
use cr_faucet.Common.{ℕ, suc, ◌≡◌, Bool, List, [], ◌∷◌}
use cr_faucet.Common.Int.{ℤ}
use cr_faucet.Contracts.MiningPoolToken.{Token}
use cr_faucet.PoolCore.Store.{Redis, StreamEntry}
use cr_faucet.RedemptionWatcher.Wallet.{WalletRpc, IsReliable}
use cr_faucet.RedemptionWatcher.World.{
  World, Payment, Fault, Flow, next, stop, processed, defer, bail,
}
use cr_faucet.RedemptionWatcher.Guards.{Settings}
use cr_faucet.RedemptionWatcher.Payouts.{process_entry, drain_entries, drain_once}
use cr_faucet.RedemptionWatcher.Preserves.{
  Holds, Preserves, Preserves-call, Preserves-require, Preserves-bind, Harmless-redis,
}
use cr_faucet.RedemptionWatcher.Preserves.Stages.{claim_slot-Preserves, park_above_cap-Preserves}
use cr_faucet.RedemptionWatcher.Leads.{Leads-bind, Leads-seq, Preserves-Leads}
use cr_faucet.RedemptionWatcher.NoDoublePay.Safe.{Safe, NoRepeat, IsKnown, All-map}
use cr_faucet.RedemptionWatcher.NoDoublePay.Guards.{check_marker_leads, reconcile_leads}
use cr_faucet.RedemptionWatcher.NoDoublePay.Entry.{
  closed, Unpaid-IsClosed, stays, look_up_quote_leads, act_on_leads, pay_out_leads,
}

module _ (cfg : Settings) (rpc : WalletRpc) (first : ℕ) (reliable : IsReliable rpc first) where
  process_entry-Preserves :
      (e : StreamEntry) → Preserves rpc (Safe cfg rpc first) (process_entry cfg e)
  unfolding process_entry
  process_entry-Preserves e =
      let kept = Unpaid-IsClosed cfg rpc first reliable e.id in
      let leads =
        Leads-seq
          (Preserves-Leads (λ w h. h)
            (park_above_cap-Preserves (closed cfg rpc first reliable) cfg e))
          (Leads-seq (check_marker_leads cfg rpc first reliable e) (
            Leads-seq (reconcile_leads cfg rpc first reliable e) (
              Leads-seq (stays cfg rpc first reliable e.id (claim_slot-Preserves kept e)) (
                Leads-bind (look_up_quote_leads cfg rpc first reliable e) (λ q.
                  Leads-bind (act_on_leads cfg rpc first reliable e q)
                    (λ payout. pay_out_leads cfg rpc first reliable e payout)))))) in
      record { run = λ w h. (leads.run w h).0 }

  goes_on :
      (es : List StreamEntry) (n : ℕ) (r : Flow Unit) (w : World rpc)
      → Preserves rpc (Safe cfg rpc first) (drain_entries cfg es (suc n))
      → Holds rpc (Safe cfg rpc first) w
      → Holds rpc
          (Safe cfg rpc first)
          (elim r as (λ _. Flow ℕ × World rpc) [
            | next _ ↦ drain_entries cfg es (suc n) w
            | stop processed ↦ drain_entries cfg es (suc n) w
            | stop defer ↦ (next n, w)
            | stop bail ↦ (stop bail, w)
          ]).1
  goes_on es n (next _) w k h = k.run w h
  goes_on es n (stop processed) w k h = k.run w h
  goes_on es n (stop defer) w k h = h
  goes_on es n (stop bail) w k h = h

  drain_entries-Preserves :
      (es : List StreamEntry) (n : ℕ) → Preserves rpc (Safe cfg rpc first) (drain_entries cfg es n)
  unfolding drain_entries
  drain_entries-Preserves [] n = record { run = λ w h. h }
  drain_entries-Preserves (e ∷ es) n = record {
    run = λ w h.
        goes_on es n _ (process_entry cfg e w).1 (drain_entries-Preserves es (suc n))
          ((process_entry-Preserves e).run w h);
  }

  -- One drain keeps the invariant of the payouts, whatever its calls answer.
  pub drain_once-Preserves :
      (is_idle : StreamEntry → Bool) → Preserves rpc (Safe cfg rpc first) (drain_once cfg is_idle)
  unfolding drain_once
  drain_once-Preserves is_idle = Preserves-bind (Preserves-call (Harmless-redis _)) (λ reclaimed.
      Preserves-bind (Preserves-require (Harmless-redis _)) (λ fresh. drain_entries-Preserves _ 0))

-- What happens to the system: a drain with any failures of its calls, at any time; anything at all
-- to the Redis data, a loss included; and a life of the wallet and the L2 outside the watcher,
-- which forgets no payout that could be found.
pub data Step (cfg : Settings) (rpc : WalletRpc) (first : ℕ) : World rpc → World rpc → Type 0 where
  drains :
      (faults : List Fault) (now : ℤ) (is_idle : StreamEntry → Bool) (w : World rpc)
      → Step cfg rpc first w (drain_once cfg is_idle (record w { faults = faults; now = now })).1
  redis_becomes : (s : Redis) (w : World rpc) → Step cfg rpc first w (record w { redis = s })
  lives_on :
      (wal : rpc.Wallet) (t : Token) (w : World rpc)
      → ((p : Payment) → IsKnown cfg rpc first w.wallet w.token p → IsKnown cfg rpc first wal t p)
      → Step cfg rpc first w (record w { wallet = wal; token = t })

pub data Steps (cfg : Settings) (rpc : WalletRpc) (first : ℕ) : World rpc → World rpc → Type 0 where
  here : (w : World rpc) → Steps cfg rpc first w w
  then :
      (u v w : World rpc)
      → Step cfg rpc first u v
      → Steps cfg rpc first v w
      → Steps cfg rpc first u w

module _ (cfg : Settings) (rpc : WalletRpc) (first : ℕ) (reliable : IsReliable rpc first) where
  Step-Safe :
      (u v : World rpc)
      → Step cfg rpc first u v
      → Holds rpc (Safe cfg rpc first) u
      → Holds rpc (Safe cfg rpc first) v
  Step-Safe u _ (drains faults now is_idle _) h =
      (drain_once-Preserves cfg rpc first reliable is_idle).run
        (record u { faults = faults; now = now }) h
  Step-Safe u _ (redis_becomes s _) h = h
  Step-Safe u _ (lives_on wal t _ k) h = (h.0, h.1, All-map u.log k h.2)

  Steps-Safe :
      (u v : World rpc)
      → Steps cfg rpc first u v
      → Holds rpc (Safe cfg rpc first) u
      → Holds rpc (Safe cfg rpc first) v
  Steps-Safe u _ (here _) h = h
  Steps-Safe u w (then _ v _ s ss) h = Steps-Safe v w ss (Step-Safe u v s h)

  -- If no payout was made yet, then after any number of drains with any failures of their calls,
  -- losses of the Redis data, and changes outside that forget no payout, no two of the payouts that
  -- the wallet accepted were for one redemption. What the wallet accepted is in the
  -- history that it answers get_transfers with, so that no such reply is a JSON-RPC error once there is a
  -- payout, and its tip stays within the reconciliation window.
  pub never_paid_twice : (u v : World rpc) → u.log ≡ [] → Steps cfg rpc first u v → NoRepeat v.log
  never_paid_twice u v start s =
      (Steps-Safe u v s
        (subst (λ log. Safe cfg rpc first u.wallet u.token log) (sym start) (tt, tt, tt))).0
