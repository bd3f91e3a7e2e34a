-- ===== src/Tests/Payouts.antt =====
-- Runs of crates/redemption-watcher: a payout, a loss of the Redis data, and a second drain.
use cr_faucet.Common.{
  ltb, leb, ◌/◌, ℕ, ◌≡◌, ◌≢◌, ◌≤◌, ◌-◌, max, ◌<◌, ◌*◌, ◌+◌, ◌^◌, Bool, true, false, none, some,
  List, [], ◌∷◌, map, inl, inr, refl, arith,
}
use Prim.Native.Nat
use cr_faucet.Common.Dict.{lookup}
use cr_faucet.Common.Int.{pos_part, ◌-ℤ◌, wrap_i64, pos}
use cr_faucet.Contracts.MiningPoolToken.{Token}
use cr_faucet.Common.Results.{ok}
use cr_faucet.PoolCore.Redemption.{stamp_tag, stamp_amount, matches_stamp, stamp_amount_correct}
use cr_faucet.PoolCore.Store.{
  treasury_snapshot, pending_atomic, Redis, empty_redis, StreamEntry, TreasurySnapshot, pending,
}
use cr_faucet.RedemptionWatcher.ProRata.{
  MoneroConfig, pay, quote, denom_of, cap_of, admit, effective_balance_of,
}
use cr_faucet.RedemptionWatcher.ProRata.Bounds.{quote_bounds, quote_keeps_rate}
use cr_faucet.RedemptionWatcher.Wallet.{
  result_or_null, WalletRpc, IsReliable, Shows, Transfer, accepted, stamp_match_in_result,
  min_height_of, scan,
}
use cr_faucet.RedemptionWatcher.Wallet.Match.{stamp_match_finds}
use cr_faucet.RedemptionWatcher.World.{World}
use cr_faucet.RedemptionWatcher.Guards.{Settings}
use cr_faucet.RedemptionWatcher.Payouts.{drain_once, process_entry}
use cr_faucet.RedemptionWatcher.FeeSwap.{Reals, FeeSwapConfig, Reads, Plan}
use cr_faucet.RedemptionWatcher.Calls.{amount_of}
use cr_faucet.RedemptionWatcher.Pay.{is_stale}
use cr_faucet.RedemptionWatcher.PaysOut.{process_entry_pays}
use cr_faucet.RedemptionWatcher.NoDoublePay.Safe.{NoRepeat}
use cr_faucet.RedemptionWatcher.NoDoublePay.Drain.{
  drains, redis_becomes, here, then, never_paid_twice,
}

-- A wallet that takes every transfer and shows it as pending from then on.
abbrev pending_transfer : ℕ → Transfer
pending_transfer a = record { amount = some a; height = none; txid = some (a ∷ []) }

abbrev generous : WalletRpc
generous = record {
  Wallet = List ℕ;
  transfer = λ a addr w. (accepted (a ∷ []) 0, a ∷ w);
  get_transfers = λ w. some (record { out = []; pending = map pending_transfer w; pool = [] });
  get_height = λ w. 3000;
  height_of_tx = λ tx w. 0;
  incoming_transfers = λ w. [];
  elapse = λ w. w;
}

keeps :
    (a b : ℕ) (w : List ℕ)
    → Shows (result_or_null (generous.get_transfers w)) 0 b
    → Shows (result_or_null (generous.get_transfers (a ∷ w))) 0 b
keeps a b w (inl p) = absurd p
keeps a b w (inr (inl p)) = inr (inl (inr p))
keeps a b w (inr (inr p)) = absurd p

generous-IsReliable : IsReliable generous 0
generous-IsReliable = record {
  tip_bound = λ w. omega arith;
  transfer_shows = λ a addr w tx fee e. inr (inl (inl refl));
  transfer_keeps = λ a addr w b s. keeps a b w s;
  elapse_keeps = λ w b s. s;
}

abbrev monero : MoneroConfig
monero = record { per_tx_cap_atomic = 10000000; max_payout_premium_bp = 10000; confirm_polls = 2 }

abbrev settings : Settings
settings = record { monero = monero; has_marker = false; signer = 1 }

abbrev snapshot : TreasurySnapshot
snapshot = record {
  monero_balance_atomic = 4000000;
  monero_unlocked_atomic = 3000000;
  pending_redemptions_atomic = 1000000;
  pending_redemptions_count = 1;
  mining_pool_token_total_supply = 3000000;
  as_of_unix = pos 1000;
}

abbrev entry : StreamEntry
entry = record { entry_id = 0; id = 7; from = 5; amount = pos 1000000; xmr_addr = [] }

abbrev queued : Redis
queued = record empty_redis {
  state = (7, pending) ∷ [];
  amount = (7, pos 1000000) ∷ [];
  pending_atomic = pos 1000000;
  pending_count = pos 1;
  undelivered = entry ∷ [];
  next_entry = 1;
  treasury = some snapshot;
}

abbrev token : Token
token = record {
  balance = [];
  total_supply = 3000000;
  claimed = [];
  authorized_signer = 1;
  next_redemption_id = 7;
  redemptions = [];
  processed = [];
  payout_txid = [];
  restore_height = 0;
  redemption_gas_subsidy = 0;
}

abbrev start : World generous
start = record { redis = queued; token = token; wallet = []; now = pos 1000; faults = []; log = [] }

abbrev no_idle : StreamEntry → Bool
no_idle e = false

-- After the payout Redis loses its data, and the redemption is queued again.
abbrev drained : World generous
drained = (drain_once settings no_idle (record start { faults = []; now = pos 1000 })).1

abbrev requeued : World generous
requeued = record drained { redis = queued }

abbrev drained_again : World generous
drained_again = (drain_once settings no_idle (record requeued { faults = []; now = pos 1000 })).1

never_paid_twice_example : NoRepeat drained_again.log
never_paid_twice_example =
    never_paid_twice settings generous 0 generous-IsReliable start drained_again refl (
      then start drained drained_again (drains [] (pos 1000) no_idle start) (
        then drained requeued drained_again (redis_becomes queued drained) (
          then requeued drained_again drained_again (drains [] (pos 1000) no_idle requeued)
            (here drained_again))))

quoted : quote monero snapshot 1000000 1000000 ≡ pay 1000000
unfolding quote denom_of cap_of admit effective_balance_of
quoted = refl

quote_bounds_example :
    let denom = denom_of snapshot 1000000 in
    let sent = stamp_amount 1000000 7 in
    (0 < sent)
    × (sent ≤ snapshot.monero_unlocked_atomic)
    × (sent * denom ≤ 1000000 * snapshot.monero_balance_atomic)
    × (sent * denom ≤ 1000000 * cap_of monero denom)
    × (matches_stamp sent 7 ≡ true)
    × (1000000 < sent + 2 ^ 17)
quote_bounds_example = quote_bounds monero snapshot 1000000 1000000 1000000 7 quoted

fits : 1000000 ≤ denom_of snapshot 1000000
unfolding denom_of
fits = omega arith

quote_keeps_rate_example :
    let denom = denom_of snapshot 1000000 in
    snapshot.monero_balance_atomic * (denom - 1000000)
    ≤ (snapshot.monero_balance_atomic - 999_943) * denom
quote_keeps_rate_example =
    quote_keeps_rate monero snapshot 1000000 1000000 1000000 999_943 quoted fits (omega arith)

stamped : matches_stamp 65543 7 ≡ true
unfolding matches_stamp stamp_tag
stamped = refl

stamp_match_finds_example :
    stamp_match_in_result (result_or_null (generous.get_transfers (65543 ∷ []))) 7 0 ≢ ok none
stamp_match_finds_example =
    stamp_match_finds 65543 7 (omega arith) stamped 0 0
      (result_or_null (generous.get_transfers (65543 ∷ []))) (omega arith) (inr (inl (inl refl)))

stamp_amount_correct_example :
    (0 < stamp_amount 1000000 7)
    × (stamp_amount 1000000 7 ≤ 1000000)
    × (1000000 < stamp_amount 1000000 7 + 2 ^ 17)
    × (matches_stamp (stamp_amount 1000000 7) 7 ≡ true)
stamp_amount_correct_example = stamp_amount_correct 1000000 7 (omega arith)

abbrev swap_config : FeeSwapConfig
swap_config = record {
  rent_floor_wei = 100;
  min_swap_atomic = 10;
  max_swap_atomic = 500;
  slippage_bps = 100;
  min_swap_gas_multiple = 5;
}

abbrev rich : TreasurySnapshot
rich = record snapshot { monero_unlocked_atomic = 8_000_800 }

abbrev reads : Reads
reads = record {
  balance = some 50;
  claimed = some 300;
  accrued = some (pos 1000);
  treasury = some (some rich);
  quote = λ delta. some (delta * 1000000000);
  gas_price = some 1;
}

-- Whole numbers in place of `f64`.
abbrev whole : Reals ℕ
whole = record {
  of_nat = λ n. n;
  mul = λ x y. x * y;
  sub = λ x y. x - y;
  div = λ x y. x / y;
  max = λ x y. Nat.max x y;
  min = λ x y. Nat.min x y;
  floor = λ x. x;
  le = leb;
  to_u64 = λ x. x;
}

abbrev plan : Plan
plan = record { delta = 400; new_cumulative = 700; min_out = 396000000000 }

small : ltb monero.per_tx_cap_atomic (amount_of entry) ≡ false
small = refl

unpaid :
    stamp_match_in_result
      (result_or_null (generous.get_transfers start.wallet))
      entry.id
      (min_height_of (generous.get_height start.wallet))
    ≡ ok none
unfolding stamp_match_in_result scan
unpaid = refl

waiting : lookup entry.id queued.state ≡ some pending
unfolding lookup
waiting = refl

reads_snapshot : treasury_snapshot queued ≡ some snapshot
unfolding treasury_snapshot
reads_snapshot = refl

fresh : is_stale start.now snapshot ≡ false
unfolding is_stale ◌-ℤ◌ wrap_i64
fresh = refl

quoted_live :
    quote settings.monero snapshot (pos_part (pending_atomic queued)) (amount_of entry)
    ≡ pay 1000000
unfolding quote denom_of cap_of admit effective_balance_of pending_atomic
quoted_live = refl

process_entry_pays_example :
    (process_entry settings entry start).1.log
    ≡ record { id = 7; amount = stamp_amount 1000000 7 } ∷ []
process_entry_pays_example =
    process_entry_pays settings generous entry token [] (pos 1000) [] queued snapshot 1000000
      (stamp_amount 1000000 7 ∷ []) 0 small (λ has. cc) unpaid waiting reads_snapshot fresh
      quoted_live refl

-- A wallet that answers every search with a JSON-RPC error.
abbrev mute : WalletRpc
mute = record generous { get_transfers = λ w. none }

-- The error reads as a history without a payout, although the payout is there.
error_reads_empty :
    stamp_match_in_result (result_or_null (mute.get_transfers (65543 ∷ []))) 7 0 ≡ ok none
unfolding stamp_match_in_result scan
error_reads_empty = refl
