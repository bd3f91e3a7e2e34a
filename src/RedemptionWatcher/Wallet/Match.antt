-- ===== src/RedemptionWatcher/Wallet/Match.antt =====
-- The reconciliation search of crates/redemption-watcher/src/payouts.rs never overlooks a payout
-- that is in its window.
use cr_faucet.Common.{
  ℕ, ◌+◌, ◌≡◌, ◌≢◌, inl, inr, Bool, true, false, none, List, [], ◌∷◌, ◌++◌, Bytes, ◌≤◌, ◌<◌, Any,
  arith, refl, length, length-append,
}
use cr_faucet.Common.Results.{ok}
use cr_faucet.PoolCore.Redemption.{matches_stamp}
use cr_faucet.RedemptionWatcher.Wallet.{
  Transfer, Transfers, scan, single, stamp_match_in_result, Pays, PaysSince, Shows,
}

single-none : (l : List (Bytes × Bool)) → single l ≡ ok none → length l ≡ 0
single-none [] e = refl
single-none (x ∷ []) e = cc
single-none (x ∷ y ∷ l) e = cc

length_parts :
    (xs ys zs : List (Bytes × Bool))
    → length (xs ++ (ys ++ zs)) ≡ length xs + (length ys + length zs)
length_parts xs ys zs = rw (length-append xs (ys ++ zs), length-append ys zs)

module _ (a id : ℕ) (pos : 0 < a) (stamped : matches_stamp a id ≡ true) where
  scan_mined :
      (low high : ℕ) (ts : List Transfer)
      → low ≤ high
      → Any (PaysSince high a) ts
      → 0 < length (scan true id low ts)
  unfolding scan
  scan_mined low high [] h p = absurd p
  scan_mined low high (t ∷ ts) h (inl p) = ground arith
  scan_mined low high (t ∷ ts) h (inr p) = ground (arith, scan_mined low high ts h p)

  scan_in_flight :
      (low : ℕ) (ts : List Transfer) → Any (Pays a) ts → 0 < length (scan false id low ts)
  unfolding scan
  scan_in_flight low [] p = absurd p
  scan_in_flight low (t ∷ ts) (inl p) = ground arith
  scan_in_flight low (t ∷ ts) (inr p) = ground (arith, scan_in_flight low ts p)

  -- If the answer shows a payout that carries the id's stamp, mined at `high` or later or still in
  -- flight, then a search from any height up to `high` does not come back with nothing.
  pub stamp_match_finds :
      (low high : ℕ) (ts : Transfers)
      → low ≤ high
      → Shows ts high a
      → stamp_match_in_result ts id low ≢ ok none
  unfolding stamp_match_in_result
  stamp_match_finds low high ts h p e =
      let xs = scan true id low ts.out in
      let ys = scan false id low ts.pending in
      let zs = scan false id low ts.pool in
      let none_found = single-none (xs ++ (ys ++ zs)) e in
      elim p [
        | inl q ↦ omega (arith, none_found, length_parts xs ys zs, scan_mined low high ts.out h q)
        | inr (inl q) ↦
            omega (arith, none_found, length_parts xs ys zs, scan_in_flight low ts.pending q)
        | inr (inr q) ↦
            omega (arith, none_found, length_parts xs ys zs, scan_in_flight low ts.pool q)
      ]
