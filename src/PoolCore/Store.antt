-- ===== src/PoolCore/Store.antt =====
-- crates/pool-core/src/store.rs: the keys of the Redis store, the balances of the miners, the pool's
-- accrued fee, the poll cursor and the treasury snapshot. Addresses are numbers, which the store
-- only compares. A counter that is missing reads as 0. A command that the server refuses (a sum
-- that is no `i64`) is an error, and Redis drops an idle balance key by itself, as `evict` does.
pub mod Queue
pub mod Laws
pub mod Pending
use cr_faucet.Common.{ℕ, ◌+◌, Bool, Option, none, some, List, [], Bytes, if◌then◌else◌}
use cr_faucet.Common.Dict.{Dict, lookup, insert, erase}
use cr_faucet.Common.Int.{ℤ, pos, ◌+ℤ◌, in_i64, max_ℤ, ltb_ℤ}
use cr_faucet.Common.Results.{Result, ok, err}
use cr_faucet.PoolCore.Lua.{tonumber}

pub record TreasurySnapshot : Type 0 where
  pub monero_balance_atomic : ℕ
  pub monero_unlocked_atomic : ℕ
  pub pending_redemptions_atomic : ℕ
  pub pending_redemptions_count : ℕ
  pub mining_pool_token_total_supply : ℕ
  pub as_of_unix : ℤ

-- The values of `redemptions:state`.
pub data RedemptionState : Type 0 where
  pending in_flight sent paused failed : RedemptionState

-- An entry of `redemptions:queue`, with the id that XADD gave it.
pub record StreamEntry : Type 0 where
  pub entry_id : ℕ
  pub id : ℕ
  pub from : ℕ
  pub amount : ℤ
  pub xmr_addr : Bytes

-- `undelivered` is the part of the stream past the group's last delivery, `pel` the entries that
-- were delivered and not acknowledged.
pub record Redis : Type 0 where
  pub earned : Dict ℤ
  pub last_voucher : Dict ℤ
  pub fee_accrued : ℤ
  pub state : Dict RedemptionState
  pub txid : Dict Bytes
  pub amount : Dict ℤ
  pub pending_atomic : ℤ
  pub pending_count : ℤ
  pub undelivered : List StreamEntry
  pub pel : List StreamEntry
  pub next_entry : ℕ
  pub cursor : Option ℕ
  pub treasury : Option TreasurySnapshot

-- A server with no data.
abbrev pub empty_redis : Redis
empty_redis = record {
  earned = [];
  last_voucher = [];
  fee_accrued = pos 0;
  state = [];
  txid = [];
  amount = [];
  pending_atomic = pos 0;
  pending_count = pos 0;
  undelivered = [];
  pel = [];
  next_entry = 0;
  cursor = none;
  treasury = none;
}

pub data StoreError : Type 0 where
  overflow unreachable : StoreError

-- `unwrap_or(0)`
abbrev pub or_zero : Option ℤ → ℤ
or_zero none = pos 0
or_zero (some v) = v

-- INCRBY refuses a sum that is no `i64`.
abbrev pub incr_by : ℤ → ℤ → Result StoreError ℤ
incr_by v delta = let sum = v +ℤ delta in if in_i64 sum then ok sum else err overflow

unfoldable pub earned : ℕ → Redis → ℤ
earned miner s = or_zero (lookup miner s.earned)

unfoldable pub last_voucher_cumulative : ℕ → Redis → ℤ
last_voucher_cumulative miner s = or_zero (lookup miner s.last_voucher)

unfoldable pub add_earned : ℕ → ℤ → Redis → Result StoreError ℤ × Redis
unfolding earned
add_earned miner delta s = elim (incr_by (earned miner s) delta) [
  | ok total ↦ (ok total, record s { earned = insert miner total s.earned })
  | err e ↦ (err e, s)
]

unfoldable pub add_fee_accrued : ℤ → Redis → Result StoreError ℤ × Redis
add_fee_accrued delta s = elim (incr_by s.fee_accrued delta) [
  | ok total ↦ (ok total, record s { fee_accrued = total })
  | err e ↦ (err e, s)
]

unfoldable pub set_last_voucher_cumulative : ℕ → ℤ → Redis → Redis
set_last_voucher_cumulative miner value s = record s {
  last_voucher = insert miner value s.last_voucher;
}

pub record BalanceState : Type 0 where
  pub earned : ℤ
  pub last_voucher_cumulative : ℤ

unfoldable pub balance_state : ℕ → Redis → BalanceState
unfolding earned last_voucher_cumulative
balance_state miner s = record {
  earned = earned miner s;
  last_voucher_cumulative = last_voucher_cumulative miner s;
}

-- The Lua script of `restore_cumulative`, on doubles.
unfoldable pub restore_cumulative : ℕ → ℤ → Redis → (ℤ × ℤ) × Redis
unfolding earned last_voucher_cumulative
restore_cumulative miner cumulative s =
    let v = tonumber cumulative in
    let e = max_ℤ (tonumber (earned miner s)) v in
    let lv = max_ℤ (tonumber (last_voucher_cumulative miner s)) v in
    (
      (e, lv),
      record s { earned = insert miner e s.earned; last_voucher = insert miner lv s.last_voucher },
    )

-- The two keys of a miner, each with a time to live of its own.
pub data BalanceKey : Type 0 where
  earned_key last_voucher_key : BalanceKey

-- The server drops a key of an idle miner.
unfoldable pub evict : BalanceKey → ℕ → Redis → Redis
evict earned_key miner s = record s { earned = erase miner s.earned }
evict last_voucher_key miner s = record s { last_voucher = erase miner s.last_voucher }

unfoldable pub get_cursor : Redis → Option ℕ
get_cursor s = s.cursor

unfoldable pub set_cursor : ℕ → Redis → Redis
set_cursor value s = record s { cursor = some value }

unfoldable pub set_treasury_snapshot : TreasurySnapshot → Redis → Redis
set_treasury_snapshot snapshot s = record s { treasury = some snapshot }

unfoldable pub treasury_snapshot : Redis → Option TreasurySnapshot
treasury_snapshot s = s.treasury

-- `v.unwrap_or(0).max(0)`
unfoldable pub pending_atomic : Redis → ℤ
pending_atomic s = max_ℤ s.pending_atomic (pos 0)

unfoldable pub pending_count : Redis → ℤ
pending_count s = max_ℤ s.pending_count (pos 0)
