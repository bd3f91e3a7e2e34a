-- ===== src/RedemptionWatcher/Events.antt =====
-- crates/redemption-watcher/src/events.rs: the poller that queues the redemptions of the token. What
-- the chain answers, and what goes wrong with each command to Redis, are inputs; `none` is a failed call of
-- the chain.
pub mod Coverage
use cr_faucet.Common.{
  ℕ, zero, suc, ◌+◌, ◌-◌, ◌%◌, ◌^◌, ltb, leb, min, Bool, true, false, Option, none, some,
  if◌then◌else◌,
}
use cr_faucet.Common.Faults.{Fault, fine, lost, late}
use cr_faucet.Common.Int.{ℤ, pos, i64_max}
use cr_faucet.Common.Results.{Result, ok, err}
use cr_faucet.Contracts.MiningPoolToken.{StoredRedemption}
use cr_faucet.PoolCore.Store.{Redis, StoreError, get_cursor, set_cursor}
use cr_faucet.PoolCore.Store.Queue.{enqueue_redemption}

pub record EventPoller : Type 0 where
  pub start_block : ℕ
  pub chunk_size : ℕ

-- The chain's answers to the two calls: 256-bit numbers.
pub record Chain : Type 0 where
  pub next_redemption_id : Option ℕ
  pub redemptions : ℕ → Option StoredRedemption

unfoldable pub u256_to_u64 : ℕ → Option ℕ
u256_to_u64 v = if ltb v (2 ^ 64) then some v else none

unfoldable pub u256_to_i64 : ℕ → Option ℤ
u256_to_i64 v = if leb v i64_max then some (pos v) else none

-- `unwrap_or(start_block.saturating_sub(1))`
abbrev pub cursor_or : ℕ → Option ℕ → ℕ
cursor_or start none = start - 1
cursor_or start (some c) = c

abbrev pub counted : Bool → ℕ → ℕ
counted true n = suc n
counted false n = n

-- What befalls the three commands to Redis for an id.
pub record IdFaults : Type 0 where
  pub at_script : Fault
  pub at_xadd : Fault
  pub at_cursor : Fault

-- `set_cursor(..).await?`, and the answer for an id that is stored.
abbrev pub advance : Fault → ℕ → Bool → Redis → Option Bool × Redis
advance fine id inserted s = (some inserted, set_cursor id s)
advance lost id inserted s = (none, s)
advance late id inserted s = (none, set_cursor id s)

abbrev pub after_enqueue : Fault → ℕ → Result StoreError Bool × Redis → Option Bool × Redis
after_enqueue f id (ok inserted, s) = advance f id inserted s
after_enqueue f id (err e, s) = (none, s)

-- Queue one redemption that was read; `none` is an error, which ends the tick.
abbrev pub enqueue_read : IdFaults → ℕ → StoredRedemption → Option ℤ → Redis → Option Bool × Redis
enqueue_read f id r none s = (none, s)
enqueue_read f id r (some atomic) s =
    after_enqueue f.at_cursor id
      (enqueue_redemption f.at_script f.at_xadd id r.user atomic r.xmr_address s)

abbrev pub enqueue_one : IdFaults → ℕ → Option StoredRedemption → Redis → Option Bool × Redis
enqueue_one f id none s = (none, s)
enqueue_one f id (some r) s = enqueue_read f id r (u256_to_i64 r.amount) s

-- The ids from `id` on, `left` of them.
unfoldable pub enqueue_ids :
    (ℕ → IdFaults) → (ℕ → Option StoredRedemption) → ℕ → ℕ → ℕ → Redis → Option ℕ × Redis
enqueue_ids net read zero id n s = (some n, s)
enqueue_ids net read (suc left) id n s =
    let rest = λ (b : Bool).
      enqueue_ids net read left (id + 1) (counted b n) (enqueue_one (net id) id (read id) s).1 in
    elim (enqueue_one (net id) id (read id) s).0 [
      | none ↦ (none, (enqueue_one (net id) id (read id) s).1)
      | some b ↦ rest b
    ]

-- The last id of the chunk, in 64 bits.
unfoldable pub chunk_end : ℕ → ℕ → ℕ → ℕ
chunk_end from chunk_size next_id = min ((from + chunk_size + (2 ^ 64 - 1)) % 2 ^ 64) next_id

abbrev pub tick_to :
    EventPoller
    → (ℕ → IdFaults)
    → (ℕ → Option StoredRedemption)
    → ℕ
    → Option ℕ
    → Redis
    → Option ℕ × Redis
tick_to poller net read cursor none s = (none, s)
tick_to poller net read cursor (some next_id) s =
    if leb next_id cursor
    then (some 0, s)
    else enqueue_ids net read (chunk_end (cursor + 1) poller.chunk_size next_id + 1 - (cursor + 1))
        (cursor + 1) 0 s

abbrev pub next_id_of : Option ℕ → Option ℕ
next_id_of none = none
next_id_of (some v) = u256_to_u64 v

-- `get_cursor(..).await?`, which changes nothing.
abbrev pub when_read : Fault → Option ℕ × Redis → Redis → Option ℕ × Redis
when_read fine rest s = rest
when_read lost rest s = (none, s)
when_read late rest s = (none, s)

unfoldable pub tick : EventPoller → Chain → Fault → (ℕ → IdFaults) → Redis → Option ℕ × Redis
tick poller chain at_cursor net s =
    when_read at_cursor
      (tick_to poller net chain.redemptions (cursor_or poller.start_block (get_cursor s))
        (next_id_of chain.next_redemption_id) s)
      s
