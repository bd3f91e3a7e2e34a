-- ===== src/RedemptionWatcher/Preserves.antt =====
-- Invariants of the wallet, the token and the log of payouts under the calls of
-- crates/redemption-watcher/src/payouts.rs, whatever goes wrong with them: one rule for each way to
-- build a stage.
pub mod Stages
pub mod PayStages
use cr_faucet.Common.{
  ℕ, ◌≡◌, Bool, true, false, Option, none, some, List, Bytes, if◌then◌else◌, refl, Option-cases,
  inl, inr, arith,
}
use cr_faucet.Contracts.MiningPoolToken.{Token, mark_processed}
use cr_faucet.PoolCore.Store.{Redis}
use cr_faucet.RedemptionWatcher.Wallet.{WalletRpc}
use cr_faucet.RedemptionWatcher.World.{
  World, Payment, Fault, fine, lost, late, Exit, bail, Flow, next, stop, M, ◌>>=◌, ◌>>◌, pure,
  leave, call, next_fault, or_bail, require, redis, wallet_read, token_read, under,
}
use cr_faucet.RedemptionWatcher.Calls.{mark_call, commit}

module _ (rpc : WalletRpc) (P : rpc.Wallet → Token → List Payment → Type 0) where
  abbrev pub Holds : World rpc → Type 0
  Holds w = P w.wallet w.token w.log

  -- However the stage ends, the invariant still holds.
  pub record Preserves {A : Type 0} (m : M rpc A) : Type 0 where
    pub run : (w : World rpc) → Holds w → Holds (m w).1

  -- A call of which nothing can go wrong that breaks the invariant.
  pub record Harmless {A : Type 0} (f : World rpc → Option A × World rpc) : Type 0 where
    pub run : (w : World rpc) → Holds w → Holds (f w).1

-- The invariant survives the token's record of a payout, and the wallet's life between two calls.
pub record IsClosed (rpc : WalletRpc) (P : rpc.Wallet → Token → List Payment → Type 0)
    : Type 0 where
  pub marks :
      (signer id : ℕ) (txid : Bytes) (height : ℕ) (wal : rpc.Wallet) (t t' : Token)
      (log : List Payment)
      → mark_processed signer id txid height t ≡ some t'
      → P wal t log
      → P wal t' log
  pub elapses :
      (wal : rpc.Wallet) (t : Token) (log : List Payment) → P wal t log → P (rpc.elapse wal) t log

pub under_holds :
    {rpc : WalletRpc} {A : Type 0} (Q : World rpc → Type 0) (f : Fault) (w : World rpc)
    (r : Option A × World rpc)
    → Q w
    → Q r.1
    → Q (under f w r).1
under_holds Q fine w r h k = k
under_holds Q lost w r h k = h
under_holds Q late w r h k = k

commit_holds :
    {rpc : WalletRpc} (Q : World rpc → Type 0) (t : Option Token) (w : World rpc)
    → Q w
    → ((t' : Token) → t ≡ some t' → Q (record w { token = t' }))
    → Q (commit t w).1
commit_holds Q none w h k = h
commit_holds Q (some t) w h k = k t refl

module _ {rpc : WalletRpc} {P : rpc.Wallet → Token → List Payment → Type 0} where
  pub Preserves-pure : {A : Type 0} (a : A) → Preserves rpc P (pure {rpc = rpc} a)
  Preserves-pure a = record { run = λ w h. h }

  pub Preserves-leave : {A : Type 0} (x : Exit) → Preserves rpc P (leave {rpc = rpc} {A = A} x)
  Preserves-leave x = record { run = λ w h. h }

  bind_run :
      {A B : Type 0} (f : A → M rpc B) (r : Flow A) (w : World rpc)
      → ((a : A) → Preserves rpc P (f a))
      → Holds rpc P w
      → Holds rpc P
          (elim r as (λ _. Flow B × World rpc) [ next a ↦ f a w | stop x ↦ (stop x, w) ]).1
  bind_run f (next a) w k h = (k a).run w h
  bind_run f (stop x) w k h = h

  pub Preserves-bind :
      {A B : Type 0} {m : M rpc A} {f : A → M rpc B}
      → Preserves rpc P m
      → ((a : A) → Preserves rpc P (f a))
      → Preserves rpc P (m >>= f)
  Preserves-bind {m} {f} p k = record { run = λ w h. bind_run f (m w).0 (m w).1 k (p.run w h) }

  pub Preserves-seq :
      {A B : Type 0} {m : M rpc A} {n : M rpc B}
      → Preserves rpc P m
      → Preserves rpc P n
      → Preserves rpc P (m >> n)
  Preserves-seq p q = Preserves-bind p (λ _. q)

  pub Preserves-call :
      {A : Type 0} {f : World rpc → Option A × World rpc}
      → Harmless rpc P f
      → Preserves rpc P (call f)
  unfolding call
  Preserves-call k = record {
    run = λ w h. under_holds (Holds rpc P) (next_fault w.faults) _ _ h (k.run _ h);
  }

  pub Preserves-or_bail : {A : Type 0} (o : Option A) → Preserves rpc P (or_bail {rpc = rpc} o)
  Preserves-or_bail none = Preserves-leave bail
  Preserves-or_bail (some a) = Preserves-pure a

  pub Preserves-require :
      {A : Type 0} {f : World rpc → Option A × World rpc}
      → Harmless rpc P f
      → Preserves rpc P (require f)
  Preserves-require k = Preserves-bind (Preserves-call k) Preserves-or_bail

  pub Preserves-if :
      {A : Type 0} (b : Bool) {m n : M rpc A}
      → Preserves rpc P m
      → Preserves rpc P n
      → Preserves rpc P (if b then m else n)
  Preserves-if true p q = p
  Preserves-if false p q = q

  pub Harmless-redis :
      {A : Type 0} (f : Redis → Option A × Redis) → Harmless rpc P (redis {rpc = rpc} f)
  Harmless-redis f = record { run = λ w h. h }

  pub Harmless-wallet_read :
      {A : Type 0} (f : rpc.Wallet → A) → Harmless rpc P (wallet_read {rpc = rpc} f)
  Harmless-wallet_read f = record { run = λ w h. h }

  pub Harmless-token_read : {A : Type 0} (f : Token → A) → Harmless rpc P (token_read {rpc = rpc} f)
  Harmless-token_read f = record { run = λ w h. h }

  pub Harmless-mark_call :
      (signer id : ℕ) (txid : Bytes) (height : ℕ)
      → IsClosed rpc P
      → Harmless rpc P (mark_call {rpc = rpc} signer id txid height)
  unfolding mark_call
  Harmless-mark_call signer id txid height c = record {
    run = λ w h.
        commit_holds (Holds rpc P) _ w h
          (λ t' e. c.marks signer id txid height w.wallet w.token t' w.log e h);
  }
