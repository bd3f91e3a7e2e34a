-- ===== src/StratumProxy/Jobs/Ring.antt =====
-- The ring of jobs of crates/stratum-proxy/src/jobs.rs: its ids stay different, and it ends in the
-- job that was published last.
use cr_faucet.Common.{
  ℕ, zero, suc, ◌-◌, ◌≡◌, ◌<◌, true, false, Option, none, some, List, [], ◌∷◌, ◌++◌, Bytes,
  bytes_eq, bytes_eq_refl, bytes_eq_comm, eq_of_bytes_eq, length, drop, All, arith, refl, ◌∙◌,
  Bool-cases, inl, inr, length-append,
}
use cr_faucet.StratumProxy.Jobs.{
  UpstreamJob, JobEntry, JobStore, accepted, publish, current, ring_size, close_last, submit_to,
  submit_in,
}
use cr_faucet.StratumProxy.Jobs.Guard.{Guarded, submit_to-accepts}

-- No entry is for the job.
abbrev pub IsUnissued : Bytes → JobStore → Type 0
IsUnissued id = All (λ e. bytes_eq e.job.job_id id ≡ false)

-- The jobs of the ring have different ids.
abbrev pub Distinct : JobStore → Type 0
Distinct [] = Unit
Distinct (e ∷ es) = IsUnissued e.job.job_id es × Distinct es

module _ {A : Type 0} (P : A → Type 0) where
  pub All-drop : (k : ℕ) (l : List A) → All P l → All P (drop k l)
  All-drop zero l h = h
  All-drop (suc k) [] h = tt
  All-drop (suc k) (x ∷ l) h = All-drop k l h.1

  pub All-append : (l r : List A) → All P l → All P r → All P (l ++ r)
  All-append [] r h k = k
  All-append (x ∷ l) r h k = (h.0, All-append l r h.1 k)

pub Distinct-drop : (k : ℕ) (s : JobStore) → Distinct s → Distinct (drop k s)
Distinct-drop zero s h = h
Distinct-drop (suc k) [] h = tt
Distinct-drop (suc k) (e ∷ s) h = Distinct-drop k s h.1

pub Distinct-append :
    (s : JobStore) (e : JobEntry)
    → Distinct s
    → IsUnissued e.job.job_id s
    → Distinct (s ++ (e ∷ []))
Distinct-append [] e h k = (tt, tt)
Distinct-append (d ∷ s) e h k = (
  All-append _ s (e ∷ []) h.0 (rw (bytes_eq_comm e.job.job_id d.job.job_id) k.0, tt),
  Distinct-append s e h.1 k.1,
)

pub close_last-IsUnissued :
    (id : Bytes) (now : ℕ) (s : JobStore) → IsUnissued id s → IsUnissued id (close_last now s)
unfolding close_last
close_last-IsUnissued id now [] h = tt
close_last-IsUnissued id now (e ∷ []) h = h
close_last-IsUnissued id now (e ∷ d ∷ s) h = (h.0, close_last-IsUnissued id now (d ∷ s) h.1)

pub close_last-Distinct : (now : ℕ) (s : JobStore) → Distinct s → Distinct (close_last now s)
unfolding close_last
close_last-Distinct now [] h = tt
close_last-Distinct now (e ∷ []) h = h
close_last-Distinct now (e ∷ d ∷ s) h =
    (close_last-IsUnissued e.job.job_id now (d ∷ s) h.0, close_last-Distinct now (d ∷ s) h.1)

submit_to-job :
    (grace now : ℕ) (nonce : Bytes) (h : Option ℕ) (e : JobEntry)
    → (submit_to nonce grace now h e).1.job ≡ e.job
unfolding submit_to
submit_to-job grace now nonce h e = ground arith

module _ (grace now : ℕ) (j n : Bytes) (h : Option ℕ) where
  submit_in-IsUnissued :
      (id : Bytes) (s : JobStore) → IsUnissued id s → IsUnissued id (submit_in j n grace now h s).1
  unfolding submit_in
  submit_in-IsUnissued id [] u = tt
  submit_in-IsUnissued id (e ∷ s) u = elim (Bool-cases (bytes_eq e.job.job_id j)) [
    | inl q ↦ rw q (rw (submit_to-job grace now n h e) u.0, u.1)
    | inr q ↦ rw q (u.0, submit_in-IsUnissued id s u.1)
  ]

  pub submit_in-Distinct : (s : JobStore) → Distinct s → Distinct (submit_in j n grace now h s).1
  unfolding submit_in
  submit_in-Distinct [] u = tt
  submit_in-Distinct (e ∷ s) u = elim (Bool-cases (bytes_eq e.job.job_id j)) [
    | inl q ↦ rw q (rw (submit_to-job grace now n h e) u.0, u.1)
    | inr q ↦ rw q (submit_in-IsUnissued e.job.job_id s u.0, submit_in-Distinct s u.1)
  ]

  elsewhere :
      (id : Bytes) (s : JobStore)
      → bytes_eq id j ≡ true
      → IsUnissued id s
      → All (Guarded grace j n now h) s
  elsewhere id [] q u = tt
  elsewhere id (e ∷ s) q u = (
    λ same.
        let a = eq_of_bytes_eq id j q in
        let b = eq_of_bytes_eq e.job.job_id j same in let c = bytes_eq_refl id in cc,
    elsewhere id s q u.1,
  )

  -- A pair that was accepted is guarded from then on.
  pub submit_in-accepts :
      (s : JobStore) (job : UpstreamJob)
      → Distinct s
      → (submit_in j n grace now h s).0 ≡ accepted job
      → All (Guarded grace j n now h) (submit_in j n grace now h s).1
  unfolding submit_in
  submit_in-accepts [] job u a = tt
  submit_in-accepts (e ∷ s) job u a = elim (Bool-cases (bytes_eq e.job.job_id j)) [
    | inl q ↦
        rw q
          (submit_to-accepts grace j n now h e job (ground arith), elsewhere e.job.job_id s q u.0)
    | inr q ↦ rw q (λ same. cc, submit_in-accepts s job u.1 (ground arith))
  ]

current-append : (s : JobStore) (e : JobEntry) → current (s ++ (e ∷ [])) ≡ some e.job
unfolding current
current-append [] e = refl
current-append (d ∷ []) e = refl
current-append (d ∷ c ∷ s) e = current-append (c ∷ s) e

current-drop : (k : ℕ) (s : JobStore) → k < length s → current (drop k s) ≡ current s
unfolding current
current-drop zero s h = refl
current-drop (suc k) [] h = absurd (omega (arith, h))
current-drop (suc zero) (d ∷ []) h = absurd (omega (arith, h))
current-drop (suc (suc k)) (d ∷ []) h = absurd (omega (arith, h))
current-drop (suc k) (d ∷ c ∷ s) h = current-drop k (c ∷ s) (omega (arith, h))

-- What is published is the current job.
pub current-publish :
    (now : ℕ) (job : UpstreamJob) (s : JobStore) → current (publish now job s) ≡ some job
unfolding publish
current-publish now job s =
    let new : JobEntry = record { job = job; superseded_at = none; seen_nonces = [] } in
    let grown = close_last now s ++ (new ∷ []) in
    let len = length-append (close_last now s) (new ∷ []) in
    current-drop (length grown - ring_size) grown (omega (arith, len))
    ∙ current-append (close_last now s) new

pub current-submit_in :
    (j n : Bytes) (grace now : ℕ) (h : Option ℕ) (s : JobStore)
    → current (submit_in j n grace now h s).1 ≡ current s
unfolding submit_in current
current-submit_in j n grace now h [] = refl
current-submit_in j n grace now h (e ∷ []) = ground (arith, submit_to-job grace now n h e)
current-submit_in j n grace now h (e ∷ d ∷ s) =
    ground (arith, current-submit_in j n grace now h (d ∷ s))
