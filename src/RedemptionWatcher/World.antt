-- ===== src/RedemptionWatcher/World.antt =====
-- What one round of crates/redemption-watcher/src/payouts.rs acts on, and its calls. Every call to
-- Redis, the wallet or the L2 can go wrong in two ways: it is lost before it has an effect, or it
-- has its effect and the answer is lost. A crash is the loss of every call from some point on.
use cr_faucet.Common.{ℕ, Option, none, some, List, [], ◌∷◌}
use cr_faucet.Common.Int.{ℤ}
use cr_faucet.Contracts.MiningPoolToken.{Token}
use cr_faucet.PoolCore.Store.{Redis}
use cr_faucet.RedemptionWatcher.Wallet.{WalletRpc}
pub use cr_faucet.Common.Faults.{Fault, fine, lost, late}

-- A payout that the wallet accepted: the redemption it was for, and its amount.
pub record Payment : Type 0 where
  pub id : ℕ
  pub amount : ℕ

-- How an entry ends: it counts as processed, the loop over the entries is left, or `drain_once`
-- returns an error.
pub data Exit : Type 0 where
  processed defer bail : Exit

pub data Flow (A : Type 0) : Type 0 where
  next : A → Flow A
  stop : Exit → Flow A

module _ (rpc : WalletRpc) where
  -- `log` is not part of the program: it lists the payouts that the wallet accepted.
  pub record World : Type 0 where
    pub redis : Redis
    pub token : Token
    pub wallet : rpc.Wallet
    pub now : ℤ
    pub faults : List Fault
    pub log : List Payment

abbrev pub next_fault : List Fault → Fault
next_fault [] = fine
next_fault (f ∷ _) = f

abbrev pub later_faults : List Fault → List Fault
later_faults [] = []
later_faults (_ ∷ fs) = fs

abbrev pub M : WalletRpc → Type 0 → Type 0
M rpc A = World rpc → Flow A × World rpc

module _ {rpc : WalletRpc} where
  infixl 5 ◌>>=◌ ◌>>◌
  abbrev pub ◌>>=◌ : {A B : Type 0} → M rpc A → (A → M rpc B) → M rpc B
  ◌>>=◌ m f w = let (r, w') = m w in elim r [ next a ↦ f a w' | stop x ↦ (stop x, w') ]

  abbrev pub ◌>>◌ : {A B : Type 0} → M rpc A → M rpc B → M rpc B
  m >> k = m >>= λ _. k

  abbrev pub pure : {A : Type 0} → A → M rpc A
  pure a w = (next a, w)

  abbrev pub leave : {A : Type 0} → Exit → M rpc A
  leave x w = (stop x, w)

  -- The answer of a call under a fault, and the world after it; `none` is an error.
  abbrev pub under : {A : Type 0} → Fault → World rpc → Option A × World rpc → Option A × World rpc
  under fine w (r, w') = (r, w')
  under lost w (r, w') = (none, w)
  under late w (r, w') = (none, w')

  -- A call, whose answer the caller looks at.
  unfoldable pub call : {A : Type 0} → (World rpc → Option A × World rpc) → M rpc (Option A)
  call f w =
      let w' = record w { faults = later_faults w.faults } in
      let (r, w'') = under (next_fault w.faults) w' (f w') in (next r, w'')

  abbrev pub or_bail : {A : Type 0} → Option A → M rpc A
  or_bail none = leave bail
  or_bail (some a) = pure a

  -- `.await?`
  abbrev pub require : {A : Type 0} → (World rpc → Option A × World rpc) → M rpc A
  require f = call f >>= or_bail

  -- A command to Redis, a read of the wallet, and a call of the token.
  abbrev pub redis : {A : Type 0} → (Redis → Option A × Redis) → World rpc → Option A × World rpc
  redis f w = let (r, s) = f w.redis in (r, record w { redis = s })

  abbrev pub wallet_read : {A : Type 0} → (rpc.Wallet → A) → World rpc → Option A × World rpc
  wallet_read f w = (some (f w.wallet), w)

  abbrev pub token_read : {A : Type 0} → (Token → A) → World rpc → Option A × World rpc
  token_read f w = (some (f w.token), w)
