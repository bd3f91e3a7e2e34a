-- ===== src/Tests/Redemptions.antt =====
-- Runs of the redemptions of crates/pool-core/src/store.rs and of the poller.
use cr_faucet.Common.{ℕ, false, ◌≡◌, ◌≤◌, ◌<◌, ◌+◌, ◌^◌, min, max, true, some, [], ◌∷◌, arith, refl}
use cr_faucet.Common.Faults.{fine, lost}
use cr_faucet.Common.Dict.{lookup, insert}
use cr_faucet.Common.Int.{pos, ◌+ℤ◌, ◌-ℤ◌}
use cr_faucet.Common.Results.{ok}
use cr_faucet.PoolCore.Lua.{tonumber, double_of, spacing, round_to}
use cr_faucet.PoolCore.Store.{Redis, empty_redis, pending, get_cursor, set_cursor}
use cr_faucet.PoolCore.Store.Queue.{
  redemption_state, enqueue_redemption, enqueue_script, bump_pending, xadd,
  try_mark_redemption_in_flight, mark_redemption_sent, debit_pending,
}
use cr_faucet.PoolCore.Store.Pending.{
  IsBalanced, is_paused, total, owed, open_count, enqueue-IsBalanced, try_mark-IsBalanced,
  mark_sent-IsBalanced,
}
use cr_faucet.RedemptionWatcher.Events.{
  EventPoller, Chain, IdFaults, tick, next_id_of, u256_to_u64, u256_to_i64, enqueue_ids, chunk_end,
}
use cr_faucet.RedemptionWatcher.Events.Coverage.{Covers, reached, tick-Covers, tick_reaches}

abbrev store : Redis
store = record empty_redis {
  state = (7, pending) ∷ [];
  amount = (7, pos 1000) ∷ [];
  pending_atomic = pos 1000;
  pending_count = pos 1;
}

store-IsBalanced : IsBalanced store
unfolding total owed open_count lookup ◌+ℤ◌
store-IsBalanced = record { atomic_matches = refl; count_matches = refl }

enqueued : (enqueue_script 8 (pos 200) store).0 ≡ ok true
unfolding enqueue_script bump_pending tonumber double_of spacing round_to lookup ◌+ℤ◌
enqueued = refl

enqueue-IsBalanced_example : IsBalanced (enqueue_redemption fine lost 8 5 (pos 200) [] store).1
enqueue-IsBalanced_example =
    enqueue-IsBalanced fine lost 8 5 (pos 200) [] true store store-IsBalanced
      (omega arith, omega arith) enqueued

-- Where XADD is lost, the redemption is known, and the queue has no entry.
unqueued :
    let s' = (enqueue_redemption fine lost 8 5 (pos 200) [] store).1 in
    (redemption_state 8 s' ≡ some pending) × (s'.undelivered ≡ [])
unfolding enqueue_redemption redemption_state enqueue_script bump_pending tonumber double_of spacing
    round_to lookup insert ◌+ℤ◌
unqueued = (refl, refl)

try_mark-IsBalanced_example : IsBalanced (try_mark_redemption_in_flight 7 store).1
try_mark-IsBalanced_example = try_mark-IsBalanced 7 store store-IsBalanced

recorded : lookup 7 store.amount ≡ some (pos 1000)
unfolding lookup
recorded = refl

unpaused : is_paused (lookup 7 store.state) ≡ false
unfolding lookup
unpaused = refl

-- One above 2 ^ 53 is no double.
rounds : tonumber (pos (2 ^ 53 + 1)) ≡ pos (2 ^ 53)
unfolding tonumber double_of spacing round_to
rounds = refl

marked : (mark_redemption_sent 7 [] store).0 ≡ ok tt
unfolding mark_redemption_sent debit_pending tonumber double_of spacing round_to lookup ◌+ℤ◌ ◌-ℤ◌
marked = refl

mark_sent-IsBalanced_example : IsBalanced (mark_redemption_sent 7 [] store).1
mark_sent-IsBalanced_example =
    mark_sent-IsBalanced 7 (pos 1000) [] store store-IsBalanced recorded (omega arith)
      (omega arith, omega arith) unpaused marked

abbrev poller : EventPoller
poller = record { start_block = 1; chunk_size = 2 }

abbrev chain : Chain
chain = record {
  next_redemption_id = some 3;
  redemptions = λ id. some (record { user = 5; amount = 100; xmr_address = [] });
}

abbrev no_faults : ℕ → IdFaults
no_faults id = record { at_script = fine; at_xadd = fine; at_cursor = fine }

empty-Covers : Covers poller.start_block empty_redis
unfolding get_cursor
empty-Covers id low high = absurd (omega (arith, low, high))

tick-Covers_example :
    let s' = (tick poller chain fine no_faults empty_redis).1 in
    Covers poller.start_block s'
    × (reached poller.start_block empty_redis ≤ reached poller.start_block s')
tick-Covers_example = tick-Covers poller chain fine no_faults empty_redis empty-Covers

newest : next_id_of chain.next_redemption_id ≡ some 3
unfolding u256_to_u64
newest = refl

ends : (tick poller chain fine no_faults empty_redis).0 ≡ some 2
unfolding tick enqueue_ids u256_to_u64 u256_to_i64 get_cursor set_cursor chunk_end
    enqueue_redemption enqueue_script bump_pending xadd tonumber double_of spacing round_to lookup
    insert ◌+ℤ◌
ends = refl

small : reached poller.start_block empty_redis + poller.chunk_size < 2 ^ 64
unfolding get_cursor
small = omega arith

tick_reaches_example :
    reached poller.start_block (tick poller chain fine no_faults empty_redis).1
    ≡ max
        (reached poller.start_block empty_redis)
        (min (reached poller.start_block empty_redis + poller.chunk_size) 3)
tick_reaches_example =
    tick_reaches poller chain fine no_faults 3 2 empty_redis empty-Covers (omega arith) small newest
      ends
