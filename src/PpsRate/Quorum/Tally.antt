-- ===== src/PpsRate/Quorum/Tally.antt =====
-- What the buckets of crates/pps-rate/src/lib.rs count.
use cr_faucet.Common.{
  ℕ, ◌+◌, ◌≤◌, ◌<◌, ◌≡◌, ◌≢◌, ◌↔◌, ◌&&◌, List, [], ◌∷◌, ◌==◌, leb, if◌then◌else◌, All, Any, refl,
  arith, inl, inr, ◌⊎◌, Bool-cases,
}
use cr_faucet.PpsRate.Quorum.{NodeSample, Bucket, is_pair, bump, tally, quorum_diffs}

-- How many samples report a height and a difficulty.
abbrev pub reports : ℕ → ℕ → List NodeSample → ℕ
reports h d [] = 0
reports h d (s ∷ ss) = (if s.height == h && s.difficulty == d then 1 else 0) + reports h d ss

abbrev pub count_at : ℕ → ℕ → List Bucket → ℕ
count_at h d [] = 0
count_at h d (b ∷ bs) = if is_pair h d b then b.count else count_at h d bs

-- Each pair has one bucket, and no bucket is empty.
abbrev pub IsTally : List Bucket → Type 0
IsTally [] = Unit
IsTally (b ∷ bs) = (0 < b.count) × (count_at b.height b.difficulty bs ≡ 0) × IsTally bs

count_at-bump :
    (h d h' d' : ℕ) (bs : List Bucket)
    → count_at h d (bump h' d' bs) ≡ (if h' == h && d' == d then 1 else 0) + count_at h d bs
unfolding bump
count_at-bump h d h' d' [] = ground arith
count_at-bump h d h' d' (b ∷ bs) = ground (arith, count_at-bump h d h' d' bs)

bump-IsTally : (h d : ℕ) (bs : List Bucket) → IsTally bs → IsTally (bump h d bs)
unfolding bump
bump-IsTally h d [] t = omega arith
bump-IsTally h d (b ∷ bs) t = elim (Bool-cases (is_pair h d b)) [
  | inl q ↦ let p = t.0 in rw q (omega arith, t.1, t.2)
  | inr q ↦ rw q (
    t.0,
    ground (arith, count_at-bump b.height b.difficulty h d bs, t.1),
    bump-IsTally h d bs t.2,
  )
]

pub tally-IsTally :
    (acc : List Bucket) (ss : List NodeSample) → IsTally acc → IsTally (tally acc ss)
unfolding tally
tally-IsTally acc [] t = t
tally-IsTally acc (s ∷ ss) t =
    tally-IsTally (bump s.height s.difficulty acc) ss (bump-IsTally s.height s.difficulty acc t)

count_at-tally_from :
    (h d : ℕ) (acc : List Bucket) (ss : List NodeSample)
    → count_at h d (tally acc ss) ≡ count_at h d acc + reports h d ss
unfolding tally
count_at-tally_from h d acc [] = omega arith
count_at-tally_from h d acc (s ∷ ss) = omega (
  arith,
  count_at-tally_from h d (bump s.height s.difficulty acc) ss,
  count_at-bump h d s.height s.difficulty acc,
)

-- The buckets count the samples.
pub count_at-tally : (h d : ℕ) (ss : List NodeSample) → count_at h d (tally [] ss) ≡ reports h d ss
count_at-tally h d ss = omega (arith, count_at-tally_from h d [] ss)

abbrev pub IsIn : ℕ → List ℕ → Type 0
IsIn x = Any (λ y. y ≡ x)

-- From high to low, no height twice.
abbrev pub Falls : List ℕ → Type 0
Falls [] = Unit
Falls (h ∷ hs) = All (λ k. k < h) hs × Falls hs

module _ (quorum h : ℕ) (some_quorum : 0 < quorum) where
  -- The entry of a pair comes before all that may still be count_at for it.
  count_at-apart :
      (d : ℕ) (b : Bucket) (bs : List Bucket)
      → count_at b.height b.difficulty bs ≡ 0
      → b.height ≡ h
      → quorum ≤ count_at h d bs
      → b.difficulty ≢ d
  count_at-apart d b bs z e q same =
      let e1 : count_at b.height b.difficulty bs ≡ count_at h d bs = cc in
      omega (arith, z, q, e1, some_quorum)

  eq_or_not : (a b : ℕ) → (a ≡ b) ⊎ (a ≢ b)
  eq_or_not a b = omega arith

  -- A difficulty stays at a height exactly if its bucket reaches the quorum.
  pub quorum_diffs_lem :
      (d : ℕ) (bs : List Bucket)
      → IsTally bs
      → IsIn d (quorum_diffs quorum h bs) ↔ (quorum ≤ count_at h d bs)
  unfolding quorum_diffs
  quorum_diffs_lem d [] t = (λ x. absurd x, λ q. absurd (omega (arith, q, some_quorum)))
  quorum_diffs_lem d (b ∷ bs) t =
      let ih = quorum_diffs_lem d bs t.2 in
      elim (Bool-cases (b.height == h && leb quorum b.count)) [
        | inl q ↦ rw q (
          (λ x. elim x [
            | inl same ↦ ground arith
            | inr later ↦ ground (arith, ih.0 later, count_at-apart d b bs t.1)
          ]),
          λ x. elim (eq_or_not b.difficulty d) [
            | inl s ↦ inl s
            | inr n ↦ inr (ih.1 (ground (arith, x, n)))
          ],
        )
        | inr q ↦ rw q (
          (λ x. ground (arith, ih.0 x, count_at-apart d b bs t.1)),
          λ x. ih.1 (ground (arith, x)),
        )
      ]

-- No difficulty stands twice.
abbrev pub Distinct : List ℕ → Type 0
Distinct [] = Unit
Distinct (d ∷ ds) = (IsIn d ds → ⊥) × Distinct ds

pub quorum_diffs-Distinct :
    (quorum h : ℕ)
    → 0 < quorum
    → (bs : List Bucket) → IsTally bs
    → Distinct (quorum_diffs quorum h bs)
unfolding quorum_diffs
quorum_diffs-Distinct quorum h p [] t = tt
quorum_diffs-Distinct quorum h p (b ∷ bs) t =
    let ih = quorum_diffs-Distinct quorum h p bs t.2 in
    elim (Bool-cases (b.height == h && leb quorum b.count)) [
      | inl q ↦ rw q (
        (λ x.
            count_at-apart quorum h p b.difficulty b bs t.1 (ground arith)
              ((quorum_diffs_lem quorum h p b.difficulty bs t.2).0 x) refl),
        ih,
      )
      | inr q ↦ rw q ih
    ]
