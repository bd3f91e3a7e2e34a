-- ===== src/PpsRate/Quorum/Agreed.antt =====
-- What decide_quorum of crates/pps-rate/src/lib.rs decides.
use cr_faucet.Common.{
  ℕ, ◌≤◌, ◌<◌, ◌≡◌, ◌⊎◌, ◌↔◌, List, [], ◌∷◌, All, refl, sym, subst, ap, ◌∙◌, arith, inl, inr,
}
use cr_faucet.Common.Results.{Result, ok, err}
use cr_faucet.PpsRate.Quorum.{
  NodeSample, Bucket, QuorumError, no_quorum, tally, heights_of, quorum_diffs, settle_height,
  search_down, decide_quorum,
}
use cr_faucet.PpsRate.Quorum.Tally.{
  reports, count_at, IsTally, tally-IsTally, count_at-tally, IsIn, Falls, quorum_diffs_lem,
  Distinct, quorum_diffs-Distinct,
}
use cr_faucet.PpsRate.Quorum.Heights.{heights_of-Falls, heights_of-IsIn}

-- At h there is a quorum for d, and no other pair at h or above it has one.
abbrev pub Leads : (ℕ → ℕ → ℕ) → ℕ → ℕ → ℕ → Type 0
Leads votes quorum h d =
    (quorum ≤ votes h d) × ((g e : ℕ) → quorum ≤ votes g e → (g < h) ⊎ ((g ≡ h) × (e ≡ d)))

below : (m x : ℕ) (hs : List ℕ) → All (λ k. k < m) hs → IsIn x hs → x < m
below m x [] a i = absurd i
below m x (k ∷ hs) a (inl e) = omega (arith, e, a.0)
below m x (k ∷ hs) a (inr i) = below m x hs a.1 i

module _ (quorum : ℕ) (bs : List Bucket) where
  Decides : Result QuorumError ℕ → Type 0
  Decides r = (d : ℕ) → (r ≡ ok d) ↔ ((h : ℕ) × Leads (λ g e. count_at g e bs) quorum h d)

  module _ (some_quorum : 0 < quorum) (t : IsTally bs) where
    -- All pairs with a quorum are at one of these heights.
    Covers : List ℕ → Type 0
    Covers hs = (h d : ℕ) → quorum ≤ count_at h d bs → IsIn h hs

    none_left : Covers [] → Decides (err no_quorum)
    unfolding Decides Covers
    none_left c d = (λ e. cc, λ l. absurd (c l.0 d l.1.0))

    at_same : (h g e : ℕ) → h ≡ g → quorum ≤ count_at g e bs → quorum ≤ count_at h e bs
    at_same h g e same q = subst (λ x. quorum ≤ count_at x e bs) (sym same) q

    leads_at :
        (h : ℕ) (hs : List ℕ) (d : ℕ)
        → Falls (h ∷ hs)
        → Covers (h ∷ hs)
        → quorum ≤ count_at h d bs
        → ((e : ℕ) → quorum ≤ count_at h e bs → e ≡ d)
        → Leads (λ g e. count_at g e bs) quorum h d
    unfolding Covers
    leads_at h hs d f c q only = (
      q,
      λ g e r. elim (c g e r) [
        | inl same ↦ inr (sym same, only e (at_same h g e same r))
        | inr i ↦ inl (below h g hs f.0 i)
      ],
    )

    agrees :
        (h : ℕ) (hs : List ℕ) (e d k : ℕ)
        → Falls (h ∷ hs)
        → Covers (h ∷ hs)
        → quorum ≤ count_at h e bs
        → Leads (λ g e. count_at g e bs) quorum k d
        → e ≡ d
    unfolding Covers
    agrees h hs e d k f c q l = elim (l.1 h e q) [
      | inr same ↦ same.1
      | inl lower ↦ absurd (elim (c k d l.0) [
        | inl same ↦ omega (arith, lower, same)
        | inr i ↦ omega (arith, lower, below h k hs f.0 i)
      ])
    ]

    at_height :
        (h : ℕ) (hs ds : List ℕ)
        → Falls (h ∷ hs)
        → Covers (h ∷ hs)
        → ((d : ℕ) → IsIn d ds ↔ (quorum ≤ count_at h d bs))
        → Distinct ds
        → (lower : Result QuorumError ℕ) → (Covers hs → Decides lower)
        → Decides (settle_height ds lower)
    unfolding Decides Covers
    at_height h hs [] f c here u lower ih d =
        ih
          (λ g e q. elim (c g e q) [
            | inl same ↦ absurd ((here e).1 (subst (λ x. quorum ≤ count_at x e bs) (sym same) q))
            | inr i ↦ i
          ])
          d
    at_height h hs (x ∷ []) f c here u lower ih d = (
      (λ e.
          let same : x ≡ d = cc in
          (
            h,
            leads_at h hs d f c ((here d).0 (inl same))
                λ g q. elim ((here g).1 q) [ inl other ↦ cc | inr i ↦ absurd i ],
          )),
      (λ l. ap ok (agrees h hs x d l.0 f c ((here x).0 (inl refl)) l.1)),
    )
    at_height h hs (x ∷ y ∷ ds) f c here u lower ih d = (
      λ e. cc,
      λ l.
          let first = agrees h hs x d l.0 f c ((here x).0 (inl refl)) l.1 in
          let second = agrees h hs y d l.0 f c ((here y).0 (inr (inl refl))) l.1 in
          absurd (u.0 (inl (second ∙ sym first))),
    )

    search_down_lem : (hs : List ℕ) → Falls hs → Covers hs → Decides (search_down quorum bs hs)
    unfolding search_down
    search_down_lem [] f c = none_left c
    search_down_lem (h ∷ hs) f c =
        at_height h hs (quorum_diffs quorum h bs) f c
          (λ d. quorum_diffs_lem quorum h some_quorum d bs t)
          (quorum_diffs-Distinct quorum h some_quorum bs t) (search_down quorum bs hs)
          (search_down_lem hs f.1)

heights_of-Covers :
    (quorum : ℕ) (bs : List Bucket) (p : 0 < quorum) (t : IsTally bs)
    → Covers quorum bs p t (heights_of bs)
unfolding Covers
heights_of-Covers quorum bs p t h d q = heights_of-IsIn h d bs (omega (arith, q, p))

-- With a quorum of at least one, a difficulty is decided exactly if some height has it reported by a
-- quorum of the samples while no other difficulty has a quorum at that height or above: so the answer is
-- that of the highest height with a quorum, and two difficulties with a quorum there yield none.
pub decide_quorum_lem :
    (samples : List NodeSample) (quorum d : ℕ)
    → 0 < quorum
    → (decide_quorum samples quorum ≡ ok d)
      ↔ ((h : ℕ) × Leads (λ g e. reports g e samples) quorum h d)
unfolding decide_quorum Decides Covers
decide_quorum_lem [] quorum d p = (λ e. cc, λ l. absurd (omega (arith, p, l.1.0)))
decide_quorum_lem (s ∷ ss) quorum d p =
    let bs = tally [] (s ∷ ss) in
    let votes : (λ g e. count_at g e bs) ≡ (λ g e. reports g e (s ∷ ss)) =
      λ ī. λ g e. count_at-tally g e (s ∷ ss) ī in
    subst (λ v. (decide_quorum (s ∷ ss) quorum ≡ ok d) ↔ ((h : ℕ) × Leads v quorum h d)) votes
      (search_down_lem quorum bs p (tally-IsTally [] (s ∷ ss) tt) (heights_of bs)
        (heights_of-Falls bs) (heights_of-Covers quorum bs p (tally-IsTally [] (s ∷ ss) tt)) d)
