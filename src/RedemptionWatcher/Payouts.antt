-- ===== src/RedemptionWatcher/Payouts.antt =====
-- crates/redemption-watcher/src/payouts.rs: `drain_once`, entry by entry.
use cr_faucet.Common.{
  ℕ, suc, Bool, Option, none, some, List, [], ◌∷◌, ◌++◌, if◌then◌else◌, take, drop,
}
use cr_faucet.PoolCore.Store.{Redis, StreamEntry}
use cr_faucet.RedemptionWatcher.Wallet.{WalletRpc}
use cr_faucet.RedemptionWatcher.World.{
  World, processed, defer, bail, next, stop, M, ◌>>=◌, ◌>>◌, call, require, redis,
}
use cr_faucet.RedemptionWatcher.Guards.{
  Settings, park_above_cap, check_marker, reconcile, claim_slot,
}
use cr_faucet.RedemptionWatcher.Pay.{look_up_quote, act_on, pay_out}

abbrev ⊤ : Type 0
⊤ = Unit

unfoldable pub select : (StreamEntry → Bool) → List StreamEntry → List StreamEntry
select test [] = []
select test (e ∷ es) = let rest = select test es in if test e then e ∷ rest else rest

-- XREADGROUP hands over up to 16 new entries, which become pending ones.
unfoldable pub read_group : Redis → Option (List StreamEntry) × Redis
read_group s =
    let fresh = take 16 s.undelivered in
    (some fresh, record s { undelivered = drop 16 s.undelivered; pel = s.pel ++ fresh })

abbrev pub or_none : Option (List StreamEntry) → List StreamEntry
or_none none = []
or_none (some es) = es

module _ {rpc : WalletRpc} where
  unfoldable pub process_entry : Settings → StreamEntry → M rpc ⊤
  process_entry cfg e = do
    park_above_cap cfg e
    check_marker cfg e
    reconcile cfg e
    claim_slot e
    q ← look_up_quote cfg e
    payout ← act_on cfg e q
    pay_out cfg e payout

  -- The loop over the entries, with the number processed so far. An error ends the drain.
  unfoldable pub drain_entries : Settings → List StreamEntry → ℕ → M rpc ℕ
  drain_entries cfg [] n w = (next n, w)
  drain_entries cfg (e ∷ es) n w =
      let rest = λ (w' : World rpc). drain_entries cfg es (suc n) w' in
      let (r, w') = process_entry cfg e w in
      elim r [
        | next _ ↦ rest w'
        | stop processed ↦ rest w'
        | stop defer ↦ (next n, w')
        | stop bail ↦ (stop bail, w')
      ]

  -- `is_idle` says which pending entries were idle for more than a minute.
  unfoldable pub drain_once : Settings → (StreamEntry → Bool) → M rpc ℕ
  drain_once cfg is_idle = do
    reclaimed ← call (redis (λ s. (some (take 16 (select is_idle s.pel)), s)))
    fresh ← require (redis read_group)
    drain_entries cfg (or_none reclaimed ++ fresh) 0
