-- ===== src/RedemptionWatcher/NoDoublePay/Guards.antt =====
-- What is known of a redemption once the guards of crates/redemption-watcher/src/payouts.rs have let
-- it pass: no payout that the wallet accepted was for it.
use cr_faucet.Common.{
  ℕ, ◌≡◌, inl, inr, ◌≤◌, ◌+◌, Bool, true, false, Option, some, none, List, [], ◌∷◌, Bytes, All,
  arith, refl,
}
use cr_faucet.Common.Results.{ok}
use cr_faucet.Contracts.MiningPoolToken.{Token, is_processed}
use cr_faucet.PoolCore.Redemption.{matches_stamp}
use cr_faucet.PoolCore.Store.{StreamEntry}
use cr_faucet.PoolCore.Store.Queue.{mark_redemption_sent}
use cr_faucet.RedemptionWatcher.Wallet.{
  result_or_null, WalletRpc, IsReliable, stamp_match_in_result, min_height_of,
  reconcile_window_blocks,
}
use cr_faucet.RedemptionWatcher.Wallet.Match.{stamp_match_finds}
use cr_faucet.RedemptionWatcher.World.{
  World, Payment, next, Flow, call, fine, lost, late, next_fault, require, redis, leave, processed,
  defer,
}
use cr_faucet.RedemptionWatcher.Calls.{xack}
use cr_faucet.RedemptionWatcher.Guards.{
  Settings, check_marker, settle, reconcile, find_paid_tx, skip_found, mark_confirmed, of_result,
}
use cr_faucet.RedemptionWatcher.NoDoublePay.Safe.{Safe, Safe-IsClosed, IsKnown, IsStamped, IsFresh}
use cr_faucet.RedemptionWatcher.Leads.{Leads, Stops, Stops-leave, Stops-seq, Leads-bind}
use cr_faucet.RedemptionWatcher.Preserves.{Holds, IsClosed}
use cr_faucet.RedemptionWatcher.Preserves.Stages.{
  check_marker-Preserves, skip_found-Preserves, find_paid_tx-Preserves,
}

-- The L2, if it is asked, has no record of the redemption.
abbrev pub NotMarked : Settings → ℕ → Token → Type 0
NotMarked cfg id t = cfg.has_marker ≡ true → is_processed id t ≡ false

module _ {rpc : WalletRpc} (cfg : Settings) (e : StreamEntry) where
  pub check_marker_next :
      (w : World rpc)
      → (check_marker cfg e w).0 ≡ next tt
      → NotMarked cfg e.id (check_marker cfg e w).1.token
  unfolding check_marker call settle
  check_marker_next w h m = ground arith

  -- Where the search begins: an unread height counts as 0.
  searched_from : World rpc → ℕ
  searched_from w = elim (next_fault w.faults) [
    | fine ↦ min_height_of (rpc.get_height w.wallet)
    | lost ↦ min_height_of 0
    | late ↦ min_height_of 0
  ]

  searched_from-le :
      (w : World rpc) (first : ℕ)
      → rpc.get_height w.wallet ≤ first + reconcile_window_blocks
      → searched_from w ≤ first
  unfolding searched_from min_height_of
  searched_from-le w first tip = ground arith

  -- The search itself changes nothing but the faults to come, and its success is a search of the
  -- wallet's present history.
  find_paid_tx_next :
      (w : World rpc) (found : Option (Bytes × Bool))
      → (find_paid_tx e.id w).0 ≡ next (some found)
      → (stamp_match_in_result (result_or_null (rpc.get_transfers w.wallet)) e.id (searched_from w)
          ≡ ok found)
  unfolding find_paid_tx call searched_from
  find_paid_tx_next w found h = ground arith

  find_paid_tx_same :
      (w : World rpc)
      → let w' = (find_paid_tx e.id w).1 in
        (w'.wallet ≡ w.wallet) × (w'.token ≡ w.token) × (w'.log ≡ w.log)
  unfolding find_paid_tx call
  find_paid_tx_same w = ground arith

module _ {rpc : WalletRpc} where
  settle-Stops : (e : StreamEntry) → Stops (settle {rpc = rpc} e)
  unfolding settle
  settle-Stops e =
      Stops-seq (require (redis (xack e.entry_id))) (leave processed) (Stops-leave processed)

  found-Stops :
      (cfg : Settings) (e : StreamEntry) (txid : Bytes) (confirmed : Bool)
      → Stops (skip_found {rpc = rpc} cfg e (some (some (txid, confirmed))))
  found-Stops cfg e txid confirmed =
      Stops-seq (call (redis (λ s. of_result (mark_redemption_sent e.id txid s)))) _
        (Stops-seq (mark_confirmed cfg e.id txid confirmed) _ (settle-Stops e))

module _ (cfg : Settings) (rpc : WalletRpc) (first : ℕ) (reliable : IsReliable rpc first) where
  closed : IsClosed rpc (Safe cfg rpc first)
  closed = Safe-IsClosed cfg rpc first reliable

  -- No payout in the history that is known, and none on the L2: there was none.
  unpaid :
      (id low : ℕ) (wal : rpc.Wallet) (t : Token) (log : List Payment)
      → low ≤ first
      → NotMarked cfg id t
      → stamp_match_in_result (result_or_null (rpc.get_transfers wal)) id low ≡ ok none
      → All IsStamped log
      → All (IsKnown cfg rpc first wal t) log
      → IsFresh id log
  unpaid id low wal t [] le m e s k = tt
  unpaid id low wal t (p ∷ log) le m e s k = (
    λ same. elim k.0 [
      | inl shown ↦
          let stamped : matches_stamp p.amount id ≡ true = rw (← same) s.0.1 in
          stamp_match_finds p.amount id s.0.0 stamped low first
            (result_or_null (rpc.get_transfers wal)) le shown e
      | inr (has, done) ↦ let unmarked = m has in cc
    ],
    unpaid id low wal t log le m e s.1 k.1,
  )

  -- The invariant, when the L2 has no record of the redemption.
  abbrev pub Unmarked : ℕ → World rpc → Type 0
  Unmarked id w = Safe cfg rpc first w.wallet w.token w.log × NotMarked cfg id w.token

  -- The invariant, when nothing was paid for the redemption.
  abbrev pub Unpaid : ℕ → rpc.Wallet → Token → List Payment → Type 0
  Unpaid id wal t log = Safe cfg rpc first wal t log × IsFresh id log

  pub check_marker_leads :
      (e : StreamEntry)
      → Leads rpc
          (Safe cfg rpc first)
          (Holds rpc (Safe cfg rpc first))
          (check_marker cfg e)
          (λ _. Unmarked e.id)
  check_marker_leads e = record {
    run = λ w h.
        let held = (check_marker-Preserves closed cfg e).run w h in
        (held, λ a next. (held, check_marker_next cfg e w next));
  }

  skip_found_leads :
      (e : StreamEntry) (found : Option (Option (Bytes × Bool)))
      → Leads rpc
          (Safe cfg rpc first)
          (λ w.
            Safe cfg rpc first w.wallet w.token w.log × (found ≡ some none → IsFresh e.id w.log))
          (skip_found cfg e found)
          (λ _. Holds rpc (Unpaid e.id))
  skip_found_leads e none = record {
    run = λ w h. (h.0, λ a e. absurd ((Stops-leave {rpc = rpc} {A = Unit} defer).run w a e));
  }
  skip_found_leads e (some none) = record { run = λ w h. (h.0, λ a e. (h.0, h.1 refl)) }
  skip_found_leads e (some (some (txid, confirmed))) = record {
    run = λ w h. (
      (skip_found-Preserves closed cfg e (some (some (txid, confirmed)))).run w h.0,
      λ a next. absurd ((found-Stops {rpc = rpc} cfg e txid confirmed).run w a next),
    );
  }

  find_paid_tx_leads :
      (e : StreamEntry)
      → Leads rpc (Safe cfg rpc first) (Unmarked e.id) (find_paid_tx e.id) (λ found w.
        Safe cfg rpc first w.wallet w.token w.log × (found ≡ some none → IsFresh e.id w.log))
  find_paid_tx_leads e = record {
    run = λ w h.
        let held = (find_paid_tx-Preserves closed e.id).run w h.0 in
        (
          held,
          λ found next. (
            held,
            λ nothing.
                let ends : (find_paid_tx e.id w).0 ≡ Flow.next (some none) = rw (← nothing) next in
                let low = searched_from-le cfg e w first (reliable.tip_bound w.wallet) in
                let (_, _, log) = find_paid_tx_same cfg e w in
                rw log (
                  unpaid e.id (searched_from cfg e w) w.wallet w.token w.log low h.1
                    (find_paid_tx_next cfg e w none ends) h.0.1 h.0.2),
          ),
        );
  }

  pub reconcile_leads :
      (e : StreamEntry)
      → Leads rpc
          (Safe cfg rpc first)
          (Unmarked e.id)
          (reconcile cfg e)
          (λ _. Holds rpc (Unpaid e.id))
  unfolding reconcile
  reconcile_leads e = Leads-bind (find_paid_tx_leads e) (skip_found_leads e)
