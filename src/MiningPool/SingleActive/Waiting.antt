-- ===== src/MiningPool/SingleActive/Waiting.antt =====
-- How long the guard of crates/mining-pool/src/single_active.rs waits, and on what it gives up.
use cr_faucet.Common.{
  ℕ, zero, suc, ◌+◌, ◌-◌, ◌≤◌, ◌<◌, ◌≡◌, ◌≢◌, ◌⊎◌, Bool, List, [], ◌∷◌, ◌++◌, refl, arith, ap, ◌∙◌,
  sym, inl, inr, Bool-cases, leb, subst,
}
use cr_faucet.Common.Results.{Result, ok, err}
use cr_faucet.MiningPool.SingleActive.{
  Cbor, Decision, proceed, stand_down, skipped, decide, Outcome, sole, unguarded, not_applicable,
  waiting, no_socket, disabled, on_decision, watch,
}

module _ {V : Type 0} (cbor : Cbor V) (aware : Bool) where
  abbrev pub Check : Type 0
  Check = Result (Unit {0}) (List V)

  -- Checks that failed, so many in a row.
  abbrev pub fails : ℕ → List Check
  fails zero = []
  fails (suc n) = err tt ∷ fails n

  -- The checks show, at some point, that the pool is alone.
  abbrev pub ShowsSole : List Check → Type 0
  ShowsSole checks =
      (pre : List Check) × (nodes : List V) × (post : List Check) × (checks
        ≡ pre ++ (ok nodes ∷ post))
      × (decide cbor nodes aware ≡ proceed)

  -- They fail six times in a row.
  abbrev pub FailsInRow : ℕ → List Check → Type 0
  FailsInRow n checks =
      (pre : List Check) × (post : List Check) × (checks ≡ pre ++ (fails n ++ post))

  never_skipped : (nodes : List V) → decide cbor nodes aware ≢ skipped
  unfolding decide
  never_skipped nodes e = ground (arith, e)

  -- What the loop can end in, from so many errors.
  abbrev Ends : ℕ → List Check → Outcome → Type 0
  Ends n checks sole = ShowsSole checks
  Ends n checks unguarded =
      ((post : List Check) × (checks ≡ fails (6 - n) ++ post)) ⊎ FailsInRow 6 checks
  Ends n checks (waiting m) = Unit
  Ends n checks no_socket = ⊥
  Ends n checks disabled = ⊥
  Ends n checks not_applicable = ⊥

  later_fails :
      (n k : ℕ) (c : Check) (rs : List Check)
      → n ≤ 6
      → ((post : List Check) × (rs ≡ fails (6 - n) ++ post)) ⊎ FailsInRow 6 rs
      → n ≡ 0
      → ((post : List Check) × (c ∷ rs ≡ fails (6 - k) ++ post)) ⊎ FailsInRow 6 (c ∷ rs)
  later_fails n k c rs le (inl (post, e)) z =
      inr (c ∷ [], post, ap (λ l. c ∷ l) (e ∙ ap (λ m. fails (6 - m) ++ post) z))
  later_fails n k c rs le (inr (pre, post, e)) z = inr (c ∷ pre, post, ap (λ l. c ∷ l) e)

  -- After an answer that shows a peer.
  Ends-peer : (n : ℕ) (c : Check) (rs : List Check) (o : Outcome) → Ends 0 rs o → Ends n (c ∷ rs) o
  Ends-peer n c rs sole (pre, nodes, post, e, d) = (c ∷ pre, nodes, post, ap (λ l. c ∷ l) e, d)
  Ends-peer n c rs unguarded h = later_fails 0 n c rs (omega arith) h refl
  Ends-peer n c rs (waiting m) h = tt
  Ends-peer n c rs no_socket h = h
  Ends-peer n c rs disabled h = h
  Ends-peer n c rs not_applicable h = h

  Ends-answer :
      (n : ℕ) (nodes : List V) (rs : List Check) (o : Outcome) (d : Decision)
      → decide cbor nodes aware ≡ d
      → Ends 0 rs o
      → Ends n (ok nodes ∷ rs) (on_decision cbor o d)
  Ends-answer n nodes rs o proceed e h = ([], nodes, rs, refl, e)
  Ends-answer n nodes rs o (stand_down k) e h = Ends-peer n (ok nodes) rs o h
  Ends-answer n nodes rs o skipped e h = absurd (never_skipped nodes e)

  one_more :
      (n : ℕ) (post : List Check)
      → n ≤ 5
      → err tt ∷ (fails (6 - (n + 1)) ++ post) ≡ fails (6 - n) ++ post
  one_more n post le = let k : 6 - n ≡ suc (6 - (n + 1)) = omega arith in rw k refl

  Ends-error :
      (n : ℕ) (rs : List Check) (o : Outcome) → n ≤ 5 → Ends (n + 1) rs o → Ends n (err tt ∷ rs) o
  Ends-error n rs sole le (pre, nodes, post, e, d) =
      (err tt ∷ pre, nodes, post, ap (λ l. err tt ∷ l) e, d)
  Ends-error n rs unguarded le (inl (post, e)) =
      inl (post, ap (λ l. err tt ∷ l) e ∙ one_more n post le)
  Ends-error n rs unguarded le (inr (pre, post, e)) =
      inr (err tt ∷ pre, post, ap (λ l. err tt ∷ l) e)
  Ends-error n rs (waiting m) le h = tt
  Ends-error n rs no_socket le h = h
  Ends-error n rs disabled le h = h
  Ends-error n rs not_applicable le h = h

  watch-Ends : (checks : List Check) (n : ℕ) → n ≤ 5 → Ends n checks (watch cbor aware n checks)
  unfolding watch
  watch-Ends [] n le = tt
  watch-Ends (ok nodes ∷ rs) n le =
      Ends-answer n nodes rs (watch cbor aware 0 rs) (decide cbor nodes aware) refl
        (watch-Ends rs 0 (omega arith))
  watch-Ends (err _ ∷ rs) n le = elim (Bool-cases (leb 6 (n + 1))) [
    | inl q ↦
        let five : n ≡ 5 = ground arith in rw q (inl (rs, ap (λ m. fails (6 - m) ++ rs) (sym five)))
    | inr q ↦
        rw q
          (Ends-error n rs (watch cbor aware (n + 1) rs) le (watch-Ends rs (n + 1) (ground arith)))
  ]

  -- The guard lets the pool run only if a check has shown that it is alone, or if six checks in a
  -- row have failed: while each answer shows a peer, and errors are fewer in a row, it waits.
  pub proceeds_only :
      (checks : List Check)
      → (watch cbor aware 0 checks ≡ sole → ShowsSole checks)
        × (watch cbor aware 0 checks ≡ unguarded → FailsInRow 6 checks)
        × (watch cbor aware 0 checks ≢ not_applicable)
  proceeds_only checks =
      let h = watch-Ends checks 0 (omega arith) in
      (
        λ e. subst (Ends 0 checks) e h,
        λ e. elim (subst (Ends 0 checks) e h) [ inl (post, k) ↦ ([], post, k) | inr row ↦ row ],
        λ e. subst (Ends 0 checks) e h,
      )

  -- How the loop is over.
  abbrev pub IsOver : Outcome → Type 0
  IsOver o = (o ≡ sole) ⊎ (o ≡ unguarded)

  IsOver-answer :
      (o : Outcome) (d : Decision) → d ≢ skipped → IsOver o → IsOver (on_decision cbor o d)
  IsOver-answer o proceed s h = inl refl
  IsOver-answer o (stand_down k) s h = h
  IsOver-answer o skipped s h = absurd (s refl)

  IsOver-later :
      (c : Check) (rs : List Check)
      → ((n : ℕ) → IsOver (watch cbor aware n rs))
      → (n : ℕ) → IsOver (watch cbor aware n (c ∷ rs))
  unfolding watch
  IsOver-later (ok nodes) rs h n =
      IsOver-answer (watch cbor aware 0 rs) (decide cbor nodes aware) (never_skipped nodes) (h 0)
  IsOver-later (err _) rs h n = elim (Bool-cases (leb 6 (n + 1))) [
    | inl q ↦ rw q (inr refl)
    | inr q ↦ rw q (h (n + 1))
  ]

  IsOver-prefix :
      (pre rs : List Check)
      → ((n : ℕ) → IsOver (watch cbor aware n rs))
      → (n : ℕ) → IsOver (watch cbor aware n (pre ++ rs))
  IsOver-prefix [] rs h n = h n
  IsOver-prefix (c ∷ pre) rs h n = IsOver-later c (pre ++ rs) (IsOver-prefix pre rs h) n

  IsOver-fails :
      (k : ℕ) (post : List Check) (n : ℕ)
      → 6 ≤ n + k
      → 0 < k
      → IsOver (watch cbor aware n (fails k ++ post))
  unfolding watch
  IsOver-fails zero post n le pos = absurd (omega (arith, pos))
  IsOver-fails (suc k) post n le pos = elim (Bool-cases (leb 6 (n + 1))) [
    | inl q ↦ rw q (inr refl)
    | inr q ↦ rw q (IsOver-fails k post (n + 1) (omega arith) (ground arith))
  ]

  IsOver-sole :
      (nodes : List V) (post : List Check) (n : ℕ)
      → decide cbor nodes aware ≡ proceed
      → IsOver (watch cbor aware n (ok nodes ∷ post))
  unfolding watch
  IsOver-sole nodes post n e = rw e (inl refl)

  -- The wait ends as soon as the checks have once shown that the pool is alone, or have failed six times
  -- in a row, whatever they showed before.
  pub wait_ends :
      (checks : List Check) (errors : ℕ)
      → ShowsSole checks ⊎ FailsInRow 6 checks
      → IsOver (watch cbor aware errors checks)
  wait_ends checks errors (inl (pre, nodes, post, e, d)) =
      subst (λ l. IsOver (watch cbor aware errors l)) (sym e)
        (IsOver-prefix pre (ok nodes ∷ post) (λ n. IsOver-sole nodes post n d) errors)
  wait_ends checks errors (inr (pre, post, e)) =
      subst (λ l. IsOver (watch cbor aware errors l)) (sym e)
        (IsOver-prefix pre (fails 6 ++ post)
          (λ n. IsOver-fails 6 post n (omega arith) (omega arith)) errors)
