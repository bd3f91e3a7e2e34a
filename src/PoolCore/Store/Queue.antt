-- ===== src/PoolCore/Store/Queue.antt =====
-- crates/pool-core/src/store.rs: the redemptions of the store. Each Lua script is one step, which
-- keeps what it wrote before a command that the server refuses.
use cr_faucet.Common.{
  ℕ, ◌+◌, Bool, true, false, Option, none, some, [], ◌∷◌, ◌++◌, Bytes, if◌then◌else◌,
}
use cr_faucet.Common.Faults.{Fault, fine, lost, late}
use cr_faucet.Common.Dict.{lookup, insert}
use cr_faucet.Common.Int.{ℤ, pos, negsuc, ◌-ℤ◌, ltb_ℤ, in_i64}
use cr_faucet.Common.Results.{Result, ok, err}
use cr_faucet.PoolCore.Lua.{tonumber}
use cr_faucet.PoolCore.Store.{
  Redis, StreamEntry, RedemptionState, pending, in_flight, sent, StoreError, overflow, unreachable,
  or_zero, incr_by,
}

abbrev pub is_pending : Option RedemptionState → Bool
is_pending (some pending) = true
is_pending _ = false

abbrev pub is_sent : Option RedemptionState → Bool
is_sent (some sent) = true
is_sent _ = false

-- `cur == 'pending' or cur == 'in_flight'`
abbrev pub is_open : Option RedemptionState → Bool
is_open (some pending) = true
is_open (some in_flight) = true
is_open _ = false

abbrev pub is_known : Option RedemptionState → Bool
is_known none = false
is_known (some _) = true

unfoldable pub redemption_state : ℕ → Redis → Option RedemptionState
redemption_state id s = lookup id s.state

-- `HSET redemptions:state`, which the callers also issue by themselves.
unfoldable pub set_state : ℕ → RedemptionState → Redis → Redis
set_state id v s = record s { state = insert id v s.state }

-- INCRBY and DECRBY by a number of the script, which is no `i64` from 2 ^ 63 on.
abbrev pub incr_by_number : ℤ → ℤ → Result StoreError ℤ
incr_by_number v d = if in_i64 d then incr_by v d else err overflow

-- INCRBY on the amount, then INCR on the count.
unfoldable pub bump_pending : ℤ → Redis → Result StoreError Bool × Redis
bump_pending amount s = elim (incr_by_number s.pending_atomic (tonumber amount)) [
  | err e ↦ (err e, s)
  | ok sum ↦ elim (incr_by s.pending_count (pos 1)) [
    | err e ↦ (err e, record s { pending_atomic = sum })
    | ok n ↦ (ok true, record s { pending_atomic = sum; pending_count = n })
  ]
]

-- The script of `enqueue_redemption`: `ok false` for an id that is known.
unfoldable pub enqueue_script : ℕ → ℤ → Redis → Result StoreError Bool × Redis
unfolding bump_pending
enqueue_script id atomic_amount s =
    if is_known (lookup id s.state)
    then (ok false, s)
    else bump_pending atomic_amount
        (record s { state = insert id pending s.state; amount = insert id atomic_amount s.amount })

-- XADD, the second call of `enqueue_redemption`.
unfoldable pub xadd : ℕ → ℕ → ℤ → Bytes → Redis → Redis
xadd id evm_from atomic_amount xmr_addr s =
    let entry : StreamEntry = record {
      entry_id = s.next_entry;
      id = id;
      from = evm_from;
      amount = atomic_amount;
      xmr_addr = xmr_addr;
    } in
    record s { undelivered = s.undelivered ++ entry ∷ []; next_entry = s.next_entry + 1 }

-- The answer of a command under a fault, and the store after it.
abbrev pub sent_under :
    {A : Type 0} → Fault → Redis → Result StoreError A × Redis → Result StoreError A × Redis
sent_under fine s r = r
sent_under lost s r = (err unreachable, s)
sent_under late s r = (err unreachable, r.1)

abbrev pub then_xadd :
    Fault → Result StoreError Bool × Redis → (Redis → Redis) → Result StoreError Bool × Redis
then_xadd f (ok true, s) add = sent_under f s (ok true, add s)
then_xadd f (ok false, s) add = (ok false, s)
then_xadd f (err e, s) add = (err e, s)

-- The script and XADD are two commands, each with a fault of its own.
unfoldable pub enqueue_redemption :
    Fault → Fault → ℕ → ℕ → ℤ → Bytes → Redis → Result StoreError Bool × Redis
unfolding enqueue_script xadd
enqueue_redemption at_script at_xadd id evm_from atomic_amount xmr_addr s =
    then_xadd at_xadd (sent_under at_script s (enqueue_script id atomic_amount s))
      (xadd id evm_from atomic_amount xmr_addr)

unfoldable pub try_mark_redemption_in_flight : ℕ → Redis → Bool × Redis
unfolding set_state
try_mark_redemption_in_flight id s =
    if is_pending (lookup id s.state) then (true, set_state id in_flight s) else (false, s)

-- DECRBY on the amount, then DECR on the count, for a recorded amount above 0.
unfoldable pub debit_pending : ℤ → Redis → Result StoreError (Unit {0}) × Redis
debit_pending amount s =
    let amt = tonumber amount in
    if ltb_ℤ (pos 0) amt
    then elim (incr_by_number s.pending_atomic (pos 0 -ℤ amt)) [
      | err e ↦ (err e, s)
      | ok sum ↦ elim (incr_by s.pending_count (negsuc 0)) [
        | err e ↦ (err e, record s { pending_atomic = sum })
        | ok n ↦ (ok tt, record s { pending_atomic = sum; pending_count = n })
      ]
    ]
    else (ok tt, s)

unfoldable pub mark_redemption_sent : ℕ → Bytes → Redis → Result StoreError (Unit {0}) × Redis
unfolding debit_pending
mark_redemption_sent id txid s =
    let cur = lookup id s.state in
    let s' = record s { state = insert id sent s.state; txid = insert id txid s.txid } in
    if is_sent cur
    then (ok tt, s)
    else if is_open cur
    then debit_pending (or_zero (lookup id s'.amount)) s'
    else (ok tt, s')
