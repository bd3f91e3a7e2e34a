-- ===== src/RedemptionWatcher/Leads.antt =====
-- What holds between the stages of crates/redemption-watcher/src/payouts.rs: an invariant that holds
-- however a stage ends, and what else is known when it goes on to the next one.
use cr_faucet.Common.{◌≡◌, ◌≢◌, List, refl}
use cr_faucet.Contracts.MiningPoolToken.{Token}
use cr_faucet.RedemptionWatcher.Wallet.{WalletRpc}
use cr_faucet.RedemptionWatcher.World.{
  World, Payment, Exit, Flow, next, stop, M, ◌>>=◌, ◌>>◌, leave,
}
use cr_faucet.RedemptionWatcher.Preserves.{Holds, Preserves}

module _ (rpc : WalletRpc) (P : rpc.Wallet → Token → List Payment → Type 0) where
  pub record Leads {A : Type 0} (Pre : World rpc → Type 0) (m : M rpc A)
      (Post : A → World rpc → Type 0) : Type 0 where
    pub run :
        (w : World rpc)
        → Pre w
        → Holds rpc P (m w).1 × ((a : A) → (m w).0 ≡ next a → Post a (m w).1)

-- A stage that never goes on.
pub record Stops {rpc : WalletRpc} {A : Type 0} (m : M rpc A) : Type 0 where
  pub run : (w : World rpc) (a : A) → (m w).0 ≢ next a

module _ {rpc : WalletRpc} where
  pub Stops-leave : {A : Type 0} (x : Exit) → Stops {rpc = rpc} {A = A} (leave x)
  Stops-leave x = record { run = λ w a h. cc }

  bind-Stops :
      {A B : Type 0} (f : A → M rpc B) (r : Flow A) (w : World rpc) (b : B)
      → ((a : A) → Stops (f a))
      → (elim r as (λ _. Flow B × World rpc) [ next a ↦ f a w | stop x ↦ (stop x, w) ]).0 ≢ next b
  bind-Stops f (next a) w b k h = (k a).run w b h
  bind-Stops f (stop x) w b k h = cc

  pub Stops-bind :
      {A B : Type 0} (m : M rpc A) (f : A → M rpc B) → ((a : A) → Stops (f a)) → Stops (m >>= f)
  Stops-bind m f k = record { run = λ w b h. bind-Stops f (m w).0 (m w).1 b k h }

  pub Stops-seq : {A B : Type 0} (m : M rpc A) (n : M rpc B) → Stops n → Stops (m >> n)
  Stops-seq m n k = Stops-bind m (λ _. n) (λ _. k)

module _ {rpc : WalletRpc} {P : rpc.Wallet → Token → List Payment → Type 0} where
  bind_leads :
      {A B : Type 0} {Mid : A → World rpc → Type 0} {Post : B → World rpc → Type 0}
      (f : A → M rpc B) (r : Flow A) (w : World rpc)
      → Holds rpc P w
      → ((a : A) → r ≡ next a → Mid a w)
      → ((a : A) → Leads rpc P (Mid a) (f a) Post)
      → let r' = elim r as (λ _. Flow B × World rpc) [ next a ↦ f a w | stop x ↦ (stop x, w) ] in
        Holds rpc P r'.1 × ((b : B) → r'.0 ≡ next b → Post b r'.1)
  bind_leads f (next a) w h mid k = (k a).run w (mid a refl)
  bind_leads f (stop x) w h mid k = (h, λ b e. cc)

  pub Leads-bind :
      {A B : Type 0} {Pre : World rpc → Type 0} {Mid : A → World rpc → Type 0}
      {Post : B → World rpc → Type 0} {m : M rpc A} {f : A → M rpc B}
      → Leads rpc P Pre m Mid
      → ((a : A) → Leads rpc P (Mid a) (f a) Post)
      → Leads rpc P Pre (m >>= f) Post
  Leads-bind {m} {f} p k = record {
    run = λ w h. let (held, mid) = p.run w h in bind_leads f (m w).0 (m w).1 held mid k;
  }

  pub Leads-seq :
      {A B : Type 0} {Pre Mid : World rpc → Type 0} {Post : B → World rpc → Type 0} {m : M rpc A}
      {n : M rpc B}
      → Leads rpc P Pre m (λ _. Mid)
      → Leads rpc P Mid n Post
      → Leads rpc P Pre (m >> n) Post
  Leads-seq p q = Leads-bind p (λ _. q)

  -- A stage that keeps a stronger invariant.
  pub Preserves-Leads :
      {A : Type 0} {Q : rpc.Wallet → Token → List Payment → Type 0} {m : M rpc A}
      → ((w : World rpc) → Holds rpc Q w → Holds rpc P w)
      → Preserves rpc Q m
      → Leads rpc P (Holds rpc Q) m (λ _. Holds rpc Q)
  Preserves-Leads {m} weaken p = record {
    run = λ w h. (weaken (m w).1 (p.run w h), λ a e. p.run w h);
  }
