-- ===== src/RedemptionWatcher/NoDoublePay/Safe.antt =====
-- The invariant of the payouts that the wallet accepted: each is for another redemption, carries
-- its stamp, and can be found again, in the wallet's history or on the L2.
use cr_faucet.Common.{ℕ, ◌≡◌, ◌≢◌, ◌⊎◌, inl, inr, ◌<◌, true, some, List, [], ◌∷◌, Bytes, All, arith}
use cr_faucet.Common.Dict.{lookup-insert}
use cr_faucet.Contracts.MiningPoolToken.{Token, is_processed, mark_processed}
use cr_faucet.PoolCore.Redemption.{matches_stamp}
use cr_faucet.RedemptionWatcher.Wallet.{result_or_null, WalletRpc, IsReliable, Shows}
use cr_faucet.RedemptionWatcher.World.{Payment}
use cr_faucet.RedemptionWatcher.Guards.{Settings}
use cr_faucet.RedemptionWatcher.Preserves.{IsClosed}

-- No payout of the log was for the redemption.
abbrev pub IsFresh : ℕ → List Payment → Type 0
IsFresh id = All (λ p. p.id ≢ id)

-- No two payouts of the log were for one redemption.
abbrev pub NoRepeat : List Payment → Type 0
NoRepeat [] = Unit
NoRepeat (p ∷ log) = IsFresh p.id log × NoRepeat log

abbrev pub IsStamped : Payment → Type 0
IsStamped p = (0 < p.amount) × (matches_stamp p.amount p.id ≡ true)

pub All-map {ℓ} :
    {A : Type ℓ} {P Q : A → Type 0} (l : List A) → ((a : A) → P a → Q a) → All P l → All Q l
All-map [] f h = tt
All-map (a ∷ l) f h = (f a h.0, All-map l f h.1)

-- A record of the token is never taken back.
pub mark_processed-keeps :
    (signer i id : ℕ) (txid : Bytes) (height : ℕ) (t t' : Token)
    → mark_processed signer i txid height t ≡ some t'
    → is_processed id t ≡ true
    → is_processed id t' ≡ true
unfolding mark_processed is_processed
mark_processed-keeps signer i id txid height t t' e h =
    ground (arith, lookup-insert id i true t.processed)

module _ (cfg : Settings) (rpc : WalletRpc) (first : ℕ) where
  -- The payout is in the wallet's history from `first` on, or recorded on the L2 that is asked.
  abbrev pub IsKnown : rpc.Wallet → Token → Payment → Type 0
  IsKnown wal t p =
      Shows (result_or_null (rpc.get_transfers wal)) first p.amount
      ⊎ ((cfg.has_marker ≡ true) × (is_processed p.id t ≡ true))

  abbrev pub Safe : rpc.Wallet → Token → List Payment → Type 0
  Safe wal t log = NoRepeat log × All IsStamped log × All (IsKnown wal t) log

  module _ (reliable : IsReliable rpc first) where
    pub IsKnown-elapse :
        (wal : rpc.Wallet) (t : Token) (p : Payment)
        → IsKnown wal t p
        → IsKnown (rpc.elapse wal) t p
    IsKnown-elapse wal t p (inl s) = inl (reliable.elapse_keeps wal p.amount s)
    IsKnown-elapse wal t p (inr m) = inr m

    pub IsKnown-transfer :
        (a : ℕ) (addr : Bytes) (wal : rpc.Wallet) (t : Token) (p : Payment)
        → IsKnown wal t p
        → IsKnown (rpc.transfer a addr wal).1 t p
    IsKnown-transfer a addr wal t p (inl s) = inl (reliable.transfer_keeps a addr wal p.amount s)
    IsKnown-transfer a addr wal t p (inr m) = inr m

    pub IsKnown-mark :
        (signer i : ℕ) (txid : Bytes) (height : ℕ) (wal : rpc.Wallet) (t t' : Token) (p : Payment)
        → mark_processed signer i txid height t ≡ some t'
        → IsKnown wal t p
        → IsKnown wal t' p
    IsKnown-mark signer i txid height wal t t' p e (inl s) = inl s
    IsKnown-mark signer i txid height wal t t' p e (inr (m, d)) =
        inr (m, mark_processed-keeps signer i p.id txid height t t' e d)

    pub Safe-transfer :
        (a : ℕ) (addr : Bytes) (wal : rpc.Wallet) (t : Token) (log : List Payment)
        → Safe wal t log
        → Safe (rpc.transfer a addr wal).1 t log
    Safe-transfer a addr wal t log (once, stamped, known) =
        (once, stamped, All-map log (IsKnown-transfer a addr wal t) known)

    pub Safe-IsClosed : IsClosed rpc Safe
    Safe-IsClosed = record {
      marks = λ signer i txid height wal t t' log e h.
          (h.0, h.1, All-map log (λ p. IsKnown-mark signer i txid height wal t t' p e) h.2);
      elapses = λ wal t log h. (h.0, h.1, All-map log (IsKnown-elapse wal t) h.2);
    }
