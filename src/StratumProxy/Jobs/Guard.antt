-- ===== src/StratumProxy/Jobs/Guard.antt =====
-- What keeps crates/stratum-proxy/src/jobs.rs from accepting a nonce for a job again: the entry of the
-- job has seen the nonce, or it is stale and stays so.
use cr_faucet.Common.{
  ℕ, ◌≡◌, ◌≢◌, ◌≤◌, true, ◌||◌, Option, none, some, [], ◌∷◌, Bytes, bytes_eq, bytes_eq_refl, All,
  arith, Bool-cases, inl, inr,
}
use cr_faucet.StratumProxy.Jobs.{
  UpstreamJob, JobEntry, JobStore, accepted, close_last, is_behind, is_stale, member, submit_to,
  submit_in,
}

-- The height of the current job does not fall, nor does it get unknown.
abbrev pub Grows : Option ℕ → Option ℕ → Type 0
Grows none _ = Unit
Grows (some h) none = ⊥
Grows (some h) (some h') = h ≤ h'

module _ (grace : ℕ) (id nonce : Bytes) where
  abbrev pub Guarded : ℕ → Option ℕ → JobEntry → Type 0
  Guarded now height e =
      bytes_eq e.job.job_id id ≡ true
      → (is_stale grace now height e || member nonce e.seen_nonces) ≡ true

  is_behind-Grows :
      (own old new : Option ℕ) → Grows old new → is_behind own old ≡ true → is_behind own new ≡ true
  is_behind-Grows none old new g b = cc
  is_behind-Grows (some o) none new g b = cc
  is_behind-Grows (some o) (some h) none g b = absurd g
  is_behind-Grows (some o) (some h) (some h') g b = ground arith

  pub Guarded-ages :
      (now later : ℕ) (old new : Option ℕ) (e : JobEntry)
      → now ≤ later
      → Grows old new
      → Guarded now old e
      → Guarded later new e
  unfolding is_stale
  Guarded-ages now later old new e le g k same =
      ground (arith, k same, is_behind-Grows e.job.height old new g)

  pub close_last-Guarded :
      (now : ℕ) (h : Option ℕ) (s : JobStore)
      → All (Guarded now h) s
      → All (Guarded now h) (close_last now s)
  unfolding close_last is_stale
  close_last-Guarded now h [] k = tt
  close_last-Guarded now h (e ∷ []) k = (ground (arith, k.0), tt)
  close_last-Guarded now h (e ∷ d ∷ s) k = (k.0, close_last-Guarded now h (d ∷ s) k.1)

  pub submit_to-Guarded :
      (n : Bytes) (now : ℕ) (h : Option ℕ) (e : JobEntry)
      → Guarded now h e
      → Guarded now h (submit_to n grace now h e).1
  unfolding submit_to is_stale member
  submit_to-Guarded n now h e k same = ground (arith, k)

  pub submit_in-Guarded :
      (j n : Bytes) (now : ℕ) (h : Option ℕ) (s : JobStore)
      → All (Guarded now h) s
      → All (Guarded now h) (submit_in j n grace now h s).1
  unfolding submit_in
  submit_in-Guarded j n now h [] k = tt
  submit_in-Guarded j n now h (e ∷ s) k = elim (Bool-cases (bytes_eq e.job.job_id j)) [
    | inl q ↦ rw q (submit_to-Guarded n now h e k.0, k.1)
    | inr q ↦ rw q (k.0, submit_in-Guarded j n now h s k.1)
  ]

  -- A guarded pair is not accepted.
  pub submit_in-refused :
      (now : ℕ) (h : Option ℕ) (s : JobStore) (job : UpstreamJob)
      → All (Guarded now h) s
      → (submit_in id nonce grace now h s).0 ≢ accepted job
  unfolding submit_in submit_to
  submit_in-refused now h [] job k a = cc
  submit_in-refused now h (e ∷ s) job k a = ground (arith, k.0, submit_in-refused now h s job k.1)

  pub submit_to-accepts :
      (now : ℕ) (h : Option ℕ) (e : JobEntry) (job : UpstreamJob)
      → (submit_to nonce grace now h e).0 ≡ accepted job
      → Guarded now h (submit_to nonce grace now h e).1
  unfolding submit_to member is_stale
  submit_to-accepts now h e job a same = ground (arith, bytes_eq_refl nonce)
