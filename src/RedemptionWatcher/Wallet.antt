-- ===== src/RedemptionWatcher/Wallet.antt =====
-- crates/redemption-watcher/src/payouts.rs: what the pool asks of `monero-wallet-rpc`, and the
-- search for a payout that was already broadcast. The wallet itself is a parameter: its calls, and
-- what the pool relies on of its history.
pub mod Match
use cr_faucet.Common.{
  ℕ, suc, ◌+◌, ◌-◌, ◌≡◌, ◌⊎◌, Bool, true, false, ◌&&◌, ◌||◌, Option, none, some, List, [], ◌∷◌,
  ◌++◌, Bytes, ltb, leb, ◌≤◌, ◌==◌, length, Any, if◌then◌else◌, map,
}
use cr_faucet.Common.Int.{ℤ, negsuc}
use cr_faucet.Common.Results.{Result, ok, err}
use cr_faucet.PoolCore.Redemption.{matches_stamp}

-- A transfer of a `get_transfers` answer; `none` is a field that is missing or that cannot be
-- read as a number or a text.
pub record Transfer : Type 0 where
  pub amount : Option ℕ
  pub height : Option ℕ
  pub txid : Option Bytes

-- The lists that `get_transfers` was asked for; a list that is missing is empty.
pub record Transfers : Type 0 where
  pub out : List Transfer
  pub pending : List Transfer
  pub pool : List Transfer

-- The JSON-RPC error of a refused `transfer`.
pub record RpcError : Type 0 where
  pub code : Option ℤ
  pub message : Bytes

pub data TransferReply : Type 0 where
  accepted : Bytes → ℕ → TransferReply
  rejected : RpcError → TransferReply

-- An output of `incoming_transfers`.
pub record Incoming : Type 0 where
  pub spent : Option Bool
  pub block_height : Option ℕ

abbrev pub reconcile_window_blocks : ℕ
reconcile_window_blocks = 4320

abbrev pub or_zero : Option ℕ → ℕ
or_zero none = 0
or_zero (some n) = n

abbrev pub txid_or_empty : Option Bytes → Bytes
txid_or_empty none = []
txid_or_empty (some t) = t

-- One list of the answer: the transfers that carry the stamp, with whether they are mined. Only
-- mined ones have to lie in the window.
unfoldable pub scan : Bool → ℕ → ℕ → List Transfer → List (Bytes × Bool)
scan confirmed id min_height [] = []
scan confirmed id min_height (t ∷ ts) =
    let rest = scan confirmed id min_height ts in
    if confirmed && ltb (or_zero t.height) min_height
    then rest
    else if ltb 0 (or_zero t.amount) && matches_stamp (or_zero t.amount) id
    then (txid_or_empty t.txid, confirmed) ∷ rest
    else rest

pub data MatchError : Type 0 where
  ambiguous : ℕ → MatchError

abbrev pub single : List (Bytes × Bool) → Result MatchError (Option (Bytes × Bool))
single [] = ok none
single (x ∷ []) = ok (some x)
single (x ∷ y ∷ rest) = err (ambiguous (suc (suc (length rest))))

unfoldable pub stamp_match_in_result : Transfers → ℕ → ℕ → Result MatchError (Option (Bytes × Bool))
stamp_match_in_result result id min_height = single (
    scan true id min_height result.out
    ++ (scan false id min_height result.pending ++ scan false id min_height result.pool))

-- The recency bound of `find_paid_tx`.
unfoldable pub min_height_of : ℕ → ℕ
min_height_of tip = tip - reconcile_window_blocks

-- A transfer of an amount, and one that is mined at `min_height` or later.
abbrev pub Pays : ℕ → Transfer → Type 0
Pays a t = t.amount ≡ some a

abbrev pub PaysSince : ℕ → ℕ → Transfer → Type 0
PaysSince min_height a t = (t.amount ≡ some a) × (min_height ≤ or_zero t.height)

-- The answer shows an outgoing transfer of the amount.
abbrev pub Shows : Transfers → ℕ → ℕ → Type 0
Shows ts min_height a =
    Any (PaysSince min_height a) ts.out ⊎ (Any (Pays a) ts.pending ⊎ Any (Pays a) ts.pool)

-- `raw.get("result").cloned().unwrap_or(Null)`: a JSON-RPC error has no result, and reads as lists that
-- are all missing.
abbrev pub result_or_null : Option Transfers → Transfers
result_or_null none = record { out = []; pending = []; pool = [] }
result_or_null (some ts) = ts

-- The wallet's calls; `none` is a reply with a JSON-RPC error. `elapse` is what happens to the wallet in the ten seconds between two polls.
pub record WalletRpc : Type 1 where
  pub Wallet : Type 0
  pub transfer : ℕ → Bytes → Wallet → TransferReply × Wallet
  pub get_transfers : Wallet → Option Transfers
  pub get_height : Wallet → ℕ
  pub height_of_tx : Bytes → Wallet → ℕ
  pub incoming_transfers : Wallet → List Incoming
  pub elapse : Wallet → Wallet

-- What the pool relies on, in a period that begins at the height `first` and lasts no longer than
-- the reconciliation window: a transfer that was accepted is in the history that `get_transfers` answers with,
-- and stays there; so once there is one, no reply is a JSON-RPC error.
pub record IsReliable (r : WalletRpc) (first : ℕ) : Type 0 where
  pub tip_bound : (w : r.Wallet) → r.get_height w ≤ first + reconcile_window_blocks
  pub transfer_shows :
      (a : ℕ) (addr : Bytes) (w : r.Wallet) (tx : Bytes) (fee : ℕ)
      → (r.transfer a addr w).0 ≡ accepted tx fee
      → Shows (result_or_null (r.get_transfers (r.transfer a addr w).1)) first a
  pub transfer_keeps :
      (a : ℕ) (addr : Bytes) (w : r.Wallet) (b : ℕ)
      → Shows (result_or_null (r.get_transfers w)) first b
      → Shows (result_or_null (r.get_transfers (r.transfer a addr w).1)) first b
  pub elapse_keeps :
      (w : r.Wallet) (b : ℕ)
      → Shows (result_or_null (r.get_transfers w)) first b
      → Shows (result_or_null (r.get_transfers (r.elapse w))) first b
