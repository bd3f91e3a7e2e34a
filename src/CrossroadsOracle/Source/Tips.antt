-- ===== src/CrossroadsOracle/Source/Tips.antt =====
-- The tip that a quorum has reached, in crates/crossroads-oracle/src/source.rs.
use cr_faucet.Common.{
  ℕ, suc, zero, ◌+◌, ◌≤◌, ◌<◌, ◌≡◌, Option, none, some, List, [], ◌∷◌, ltb, leb, if◌then◌else◌,
  length, All, refl, arith, inl, inr, Bool-cases,
}
use cr_faucet.Common.Results.{Result, ok, err}
use cr_faucet.CrossroadsOracle.Source.{
  Refusal, panic, insert_down, sort_down, get, at_quorum, quorum_tip,
}

-- How many are at least v.
abbrev pub reach : ℕ → List ℕ → ℕ
reach v [] = 0
reach v (t ∷ ts) = (if leb v t then 1 else 0) + reach v ts

reach-insert_down : (v t : ℕ) (ts : List ℕ) → reach v (insert_down t ts) ≡ reach v (t ∷ ts)
unfolding insert_down
reach-insert_down v t [] = refl
reach-insert_down v t (u ∷ us) = elim (Bool-cases (leb u t)) [
  | inl q ↦ rw q refl
  | inr q ↦ rw q (omega (arith, reach-insert_down v t us))
]

reach-sort_down : (v : ℕ) (ts : List ℕ) → reach v (sort_down ts) ≡ reach v ts
unfolding sort_down
reach-sort_down v [] = refl
reach-sort_down v (t ∷ ts) =
    omega (arith, reach-insert_down v t (sort_down ts), reach-sort_down v ts)

abbrev Descends : List ℕ → Type 0
Descends [] = Unit
Descends (t ∷ ts) = All (λ u. u ≤ t) ts × Descends ts

All-raise : (s t : ℕ) (us : List ℕ) → s ≤ t → All (λ u. u ≤ s) us → All (λ u. u ≤ t) us
All-raise s t [] p a = tt
All-raise s t (u ∷ us) p a = (omega (arith, p, a.0), All-raise s t us p a.1)

insert_down-All :
    (m t : ℕ) (us : List ℕ) → t ≤ m → All (λ u. u ≤ m) us → All (λ u. u ≤ m) (insert_down t us)
unfolding insert_down
insert_down-All m t [] p a = (p, tt)
insert_down-All m t (u ∷ us) p a = ground (arith, insert_down-All m t us p a.1)

insert_down-Descends : (t : ℕ) (us : List ℕ) → Descends us → Descends (insert_down t us)
unfolding insert_down
insert_down-Descends t [] d = (tt, tt)
insert_down-Descends t (u ∷ us) d = elim (Bool-cases (leb u t)) [
  | inl q ↦ rw q ((ground arith, All-raise u t us (ground arith) d.0), d)
  | inr q ↦ rw q (insert_down-All u t us (ground arith) d.0, insert_down-Descends t us d.1)
]

sort_down-Descends : (ts : List ℕ) → Descends (sort_down ts)
unfolding sort_down
sort_down-Descends [] = tt
sort_down-Descends (t ∷ ts) = insert_down-Descends t (sort_down ts) (sort_down-Descends ts)

get-below : (m i v : ℕ) (ts : List ℕ) → All (λ u. u ≤ m) ts → get ts i ≡ some v → v ≤ m
get-below m i v [] a g = cc
get-below m zero v (t ∷ ts) a g = let e : t ≡ v = cc in omega (arith, e, a.0)
get-below m (suc i) v (t ∷ ts) a g = get-below m i v ts a.1 g

get-reach : (i v : ℕ) (ts : List ℕ) → Descends ts → get ts i ≡ some v → suc i ≤ reach v ts
get-reach i v [] d g = cc
get-reach zero v (t ∷ ts) d g = let e : t ≡ v = cc in ground (arith, e)
get-reach (suc i) v (t ∷ ts) d g = ground (arith, get-reach i v ts d.1 g, get-below t i v ts d.0 g)

quorum_at :
    (i v : ℕ) (o : Option ℕ)
    → elim o as (λ _. Result Refusal (Option ℕ)) [ none ↦ err panic | some t ↦ ok (some t) ]
      ≡ ok (some v)
    → o ≡ some v
quorum_at i v none h = cc
quorum_at i v (some t) h = cc

at_quorum-reach :
    (ts : List ℕ) (quorum v : ℕ)
    → Descends ts
    → at_quorum ts quorum ≡ ok (some v)
    → (0 < quorum) × (quorum ≤ reach v ts)
unfolding at_quorum
at_quorum-reach ts zero v d h = cc
at_quorum-reach ts (suc i) v d h = (omega arith, get-reach i v ts d (quorum_at i v (get ts i) h))

pub quorum_tip-reach :
    (ts : List ℕ) (quorum v : ℕ)
    → quorum_tip ts quorum ≡ ok (some v)
    → (0 < quorum) × (quorum ≤ reach v ts)
unfolding quorum_tip
quorum_tip-reach ts quorum v h = elim (Bool-cases (ltb (length ts) quorum)) [
  | inl q ↦ grind arith
  | inr q ↦
      ground (
        arith,
        at_quorum-reach (sort_down ts) quorum v (sort_down-Descends ts),
        reach-sort_down v ts,
      )
]

pub reach-later : (v w : ℕ) (ts : List ℕ) → w ≤ v → reach v ts ≤ reach w ts
reach-later v w [] p = omega arith
reach-later v w (t ∷ ts) p = ground (arith, reach-later v w ts p)
