-- ===== src/RedemptionWatcher/Calls.antt =====
-- crates/redemption-watcher/src/payouts.rs: the single calls to Redis, the wallet and the token that
-- `drain_once` is made of, and its pure helpers.
use cr_faucet.Common.{
  ℕ, ◌+◌, ◌==◌, ◌||◌, ◌&&◌, Bool, true, false, Option, none, some, List, [], ◌∷◌, map, Bytes, leb,
  if◌then◌else◌, min,
}
use Prim.Native.Char.{code}
use Prim.Native.String.{String}
use cr_faucet.Common.Int.{ℤ, negsuc, pos_part}
use cr_faucet.Contracts.MiningPoolToken.{Token, mark_processed}
use cr_faucet.PoolCore.Store.{Redis, StreamEntry, RedemptionState}
use cr_faucet.PoolCore.Store.Queue.{set_state}
use cr_faucet.RedemptionWatcher.Wallet.{
  WalletRpc, RpcError, Incoming, TransferReply, accepted, rejected,
}
use cr_faucet.RedemptionWatcher.World.{World, Payment}

-- The bytes of an ASCII text.
abbrev pub codes : String → Bytes
codes String.[] = []
codes (String.◌∷◌ c s) = code c ∷ codes s

abbrev ⊤ : Type 0
⊤ = Unit

-- HSET redemptions:state; XACK, which takes the entry off the pending entries list.
unfoldable pub hset_state : ℕ → RedemptionState → Redis → Option ⊤ × Redis
hset_state id v s = (some tt, set_state id v s)

unfoldable pub without : ℕ → List StreamEntry → List StreamEntry
without entry_id [] = []
without entry_id (e ∷ es) =
    let rest = without entry_id es in if e.entry_id == entry_id then rest else e ∷ rest

unfoldable pub xack : ℕ → Redis → Option ⊤ × Redis
unfolding without
xack entry_id s = (some tt, record s { pel = without entry_id s.pel })

-- `parse::<u128>().unwrap_or(0)` of the entry's amount.
abbrev pub amount_of : StreamEntry → ℕ
amount_of e = pos_part e.amount

-- Substring search, and `to_ascii_lowercase`.
unfoldable pub is_prefix : Bytes → Bytes → Bool
is_prefix [] _ = true
is_prefix (_ ∷ _) [] = false
is_prefix (a ∷ s) (b ∷ t) = a == b && is_prefix s t

unfoldable pub contains : Bytes → Bytes → Bool
unfolding is_prefix
contains needle [] = is_prefix needle []
contains needle (b ∷ t) = is_prefix needle (b ∷ t) || contains needle t

unfoldable pub lower : ℕ → ℕ
lower c = if leb b'A' c && leb c b'Z' then c + 32 else c

abbrev is_wrong_address : Option ℤ → Bool
is_wrong_address (some (negsuc n)) = n == 1
is_wrong_address _ = false

unfoldable pub is_permanent_transfer_error : RpcError → Bool
unfolding contains lower
is_permanent_transfer_error e =
    let msg = map lower e.message in
    is_wrong_address e.code
    || (contains (codes "wrong address") msg
        || (contains (codes "invalid address") msg
            || (contains (codes "invalid destination") msg
                || (contains (codes "wrong network") msg || contains (codes "wrong_address") msg))))

-- `filter` on unspent, `filter_map` on the height, `min`, `unwrap_or(0)`.
abbrev is_unspent : Option Bool → Bool
is_unspent (some false) = true
is_unspent _ = false

abbrev least : Option ℕ → Option ℕ → Option ℕ
least none b = b
least (some a) none = some a
least (some a) (some b) = some (min a b)

unfoldable pub oldest_unspent : List Incoming → Option ℕ
oldest_unspent [] = none
oldest_unspent (t ∷ ts) =
    let rest = oldest_unspent ts in if is_unspent t.spent then least t.block_height rest else rest

abbrev pub or_zero : Option ℕ → ℕ
or_zero none = 0
or_zero (some n) = n

-- The log with an entry for a payout that the wallet accepted.
abbrev pub logged : ℕ → ℕ → TransferReply → List Payment → List Payment
logged id amount (accepted _ _) log = record { id = id; amount = amount } ∷ log
logged id amount (rejected _) log = log

module _ {rpc : WalletRpc} where
  -- A markProcessed transaction of the enclave, whose signer the token authorizes or not.
  abbrev pub commit : Option Token → World rpc → Option ⊤ × World rpc
  commit none w = (none, w)
  commit (some t) w = (some tt, record w { token = t })

  unfoldable pub mark_call : ℕ → ℕ → Bytes → ℕ → World rpc → Option ⊤ × World rpc
  mark_call signer id txid restore_height w =
      commit (mark_processed signer id txid restore_height w.token) w

  -- The wallet's `transfer`.
  unfoldable pub transfer_call : ℕ → ℕ → Bytes → World rpc → Option TransferReply × World rpc
  transfer_call id amount addr w =
      let (reply, wallet) = rpc.transfer amount addr w.wallet in
      (some reply, record w { wallet = wallet; log = logged id amount reply w.log })
