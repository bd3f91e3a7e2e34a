-- ===== src/MiningPool/SingleActive/Counting.antt =====
-- When the count of crates/mining-pool/src/single_active.rs lets the pool run.
use cr_faucet.Common.{
  ℕ, ◌≤◌, ◌≡◌, ◌↔◌, true, false, List, [], ◌∷◌, ◌++◌, length, any, All, refl, arith, inl, inr,
  Bool-cases, length-append,
}
use cr_faucet.MiningPool.SingleActive.{
  Cbor, proceed, decide_count, decide, distinct_from, distinct_count,
}

module _ {V : Type 0} (cbor : Cbor V) where
  -- All nodes are one.
  abbrev pub AllEqual : List V → Type 0
  AllEqual [] = Unit
  AllEqual (v ∷ vs) = All (λ w. cbor.eq v w ≡ true) vs

  decide_count_lem : (n : ℕ) → (decide_count cbor n ≡ proceed) ↔ (n ≤ 1)
  decide_count_lem n = ground arith

  length-distinct_from : (seen vs : List V) → length seen ≤ length (distinct_from cbor seen vs)
  unfolding distinct_from
  length-distinct_from seen [] = omega arith
  length-distinct_from seen (v ∷ vs) = elim (Bool-cases (any (λ s. cbor.eq s v) seen)) [
    | inl q ↦ rw q (length-distinct_from seen vs)
    | inr q ↦
        rw q
          (omega (arith, length-distinct_from (seen ++ (v ∷ [])) vs, length-append seen (v ∷ [])))
  ]

  one_node :
      (v : V) (vs : List V)
      → (length (distinct_from cbor (v ∷ []) vs) ≤ 1) ↔ All (λ w. cbor.eq v w ≡ true) vs
  unfolding distinct_from
  one_node v [] = (λ _. tt, λ _. omega arith)
  one_node v (w ∷ vs) = elim (Bool-cases (cbor.eq v w)) [
    | inl q ↦ let ih = one_node v vs in rw q ((λ h. (refl, ih.0 h)), λ h. ih.1 h.1)
    | inr q ↦ rw q ((λ h. absurd (omega (arith, length-distinct_from (v ∷ w ∷ []) vs, h))), λ h. cc)
  ]

  aware : (nodes : List V) → (distinct_count cbor nodes ≤ 1) ↔ AllEqual nodes
  unfolding distinct_count distinct_from
  aware [] = (λ _. tt, λ _. omega arith)
  aware (v ∷ vs) = one_node v vs

  AllEqual-short : (nodes : List V) → length nodes ≤ 1 → AllEqual nodes
  AllEqual-short [] h = tt
  AllEqual-short (v ∷ []) h = tt
  AllEqual-short (v ∷ w ∷ vs) h = absurd (omega (arith, h))

  -- A strict pool runs exactly if there is at most one registration; one that is aware of nodes, exactly
  -- if all registrations are on one node; so whenever the strict one runs, the other does.
  pub decide_lem :
      (nodes : List V)
      → ((decide cbor nodes false ≡ proceed) ↔ (length nodes ≤ 1))
        × ((decide cbor nodes true ≡ proceed) ↔ AllEqual nodes)
        × (decide cbor nodes false ≡ proceed → decide cbor nodes true ≡ proceed)
  unfolding decide
  decide_lem nodes =
      let strict = decide_count_lem (length nodes) in
      let count = decide_count_lem (distinct_count cbor nodes) in
      let same = aware nodes in
      (
        strict,
        (λ h. same.0 (count.0 h), λ h. count.1 (same.1 h)),
        λ h. count.1 (same.1 (AllEqual-short nodes (strict.0 h))),
      )
