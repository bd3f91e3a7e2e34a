-- ===== src/StratumProxy/Jobs/Replay.antt =====
-- No share is accepted twice: histories of the operations of crates/stratum-proxy/src/jobs.rs.
use cr_faucet.Common.{
  ℕ, ◌+◌, ◌≡◌, ◌≢◌, false, Option, none, some, List, [], ◌∷◌, ◌++◌, map, Bytes, bytes_eq, All,
  arith, refl, subst, bytes_eq_comm,
}
use cr_faucet.StratumProxy.Jobs.{
  UpstreamJob, JobEntry, JobStore, SubmissionOutcome, unknown_job, stale, duplicate, accepted,
  publish, current, height_of, record_submission, close_last, to_lower,
}
use cr_faucet.StratumProxy.Jobs.Ring.{
  Distinct, IsUnissued, All-drop, All-append, Distinct-drop, Distinct-append, close_last-IsUnissued,
  close_last-Distinct, submit_in-Distinct, submit_in-accepts, current-publish, current-submit_in,
}
use cr_faucet.StratumProxy.Jobs.Guard.{
  Grows, Guarded, Guarded-ages, close_last-Guarded, submit_in-Guarded, submit_in-refused,
}

-- A share that was accepted: the job's id, and the nonce in lower case.
abbrev pub Share : Type 0
Share = Bytes × Bytes

abbrev pub IsFirst : Share → List Share → Type 0
IsFirst p = All (λ q. q ≢ p)

abbrev pub AllDifferent : List Share → Type 0
AllDifferent [] = Unit
AllDifferent (p ∷ log) = IsFirst p log × AllDifferent log

abbrev pub with_accepted : Bytes → Bytes → SubmissionOutcome → List Share → List Share
with_accepted id nonce unknown_job log = log
with_accepted id nonce stale log = log
with_accepted id nonce duplicate log = log
with_accepted id nonce (accepted _) log = (id, map to_lower nonce) ∷ log

-- A history of the store under one grace period, with the time, and the shares that were accepted
-- so far. The upstream gives a job an id that no job of the ring and no accepted share has, and a
-- height that is not below the current one.
pub data Run (grace : ℕ) : ℕ → JobStore → List Share → Type 0 where
  begins : (now : ℕ) → Run grace now [] []
  waits :
      (d now : ℕ) (s : JobStore) (log : List Share)
      → Run grace now s log
      → Run grace (now + d) s log
  publishes :
      (job : UpstreamJob) (now : ℕ) (s : JobStore) (log : List Share)
      → IsUnissued job.job_id s
      → All (λ p. bytes_eq p.0 job.job_id ≡ false) log
      → Grows (height_of (current s)) job.height
      → Run grace now s log
      → Run grace now (publish now job s) log
  submits :
      (id nonce : Bytes) (now : ℕ) (s : JobStore) (log : List Share)
      → Run grace now s log
      → Run grace now
          (record_submission id nonce grace now s).1
          (with_accepted id nonce (record_submission id nonce grace now s).0 log)

module _ (grace : ℕ) where
  -- Each share that was accepted is guarded by the store.
  abbrev Holds : ℕ → JobStore → List Share → Type 0
  Holds now s log =
      Distinct s
      × AllDifferent log
      × All (λ p. All (Guarded grace p.0 p.1 now (height_of (current s))) s) log

  All-zip :
      {A : Type 0} {P Q R : A → Type 0} (l : List A)
      → ((a : A) → P a → Q a → R a)
      → All P l
      → All Q l
      → All R l
  All-zip [] f h k = tt
  All-zip (a ∷ l) f h k = (f a h.0 k.0, All-zip l f h.1 k.1)

  All-imply :
      {A : Type 0} {P Q : A → Type 0} (l : List A) → ((a : A) → P a → Q a) → All P l → All Q l
  All-imply [] f h = tt
  All-imply (a ∷ l) f h = (f a h.0, All-imply l f h.1)

  Grows-refl : (h : Option ℕ) → Grows h h
  Grows-refl none = tt
  Grows-refl (some h) = omega arith

  published :
      (job : UpstreamJob) (now : ℕ) (s : JobStore) (p : Share)
      → Grows (height_of (current s)) job.height
      → bytes_eq p.0 job.job_id ≡ false
      → All (Guarded grace p.0 p.1 now (height_of (current s))) s
      → All
          (Guarded grace p.0 p.1 now (height_of (current (publish now job s))))
          (publish now job s)
  unfolding publish
  published job now s p g new k =
      let entry : JobEntry = record { job = job; superseded_at = none; seen_nonces = [] } in
      let closed = close_last-Guarded grace p.0 p.1 now (height_of (current s)) s k in
      let aged =
        All-imply (close_last now s)
          (λ e.
            Guarded-ages grace p.0 p.1 now now (height_of (current s)) job.height e (omega arith) g)
          closed in
      rw (current-publish now job s) (
        All-drop _ _ (close_last now s ++ (entry ∷ [])) (
          All-append _ (close_last now s) (entry ∷ []) aged
            ((λ same. let swap = bytes_eq_comm p.0 job.job_id in cc), tt)))

  publish-Holds :
      (job : UpstreamJob) (now : ℕ) (s : JobStore) (log : List Share)
      → IsUnissued job.job_id s
      → All (λ p. bytes_eq p.0 job.job_id ≡ false) log
      → Grows (height_of (current s)) job.height
      → Holds now s log
      → Holds now (publish now job s) log
  unfolding publish
  publish-Holds job now s log u new g h = (
    Distinct-drop _ (close_last now s ++ _) (
        Distinct-append (close_last now s) _ (close_last-Distinct now s h.0)
          (close_last-IsUnissued job.job_id now s u)),
    h.1,
    All-zip log (λ p a b. published job now s p g a b) new h.2,
  )

  submitted :
      (id nonce : Bytes) (now : ℕ) (s : JobStore) (p : Share)
      → All (Guarded grace p.0 p.1 now (height_of (current s))) s
      → let s' = (record_submission id nonce grace now s).1 in
        All (Guarded grace p.0 p.1 now (height_of (current s'))) s'
  unfolding record_submission
  submitted id nonce now s p k =
      rw (current-submit_in id (map to_lower nonce) grace now (height_of (current s)) s)
        (submit_in-Guarded grace p.0 p.1 id (map to_lower nonce) now (height_of (current s)) s k)

  submitted_Distinct :
      (id nonce : Bytes) (now : ℕ) (s : JobStore)
      → Distinct s
      → Distinct (record_submission id nonce grace now s).1
  unfolding record_submission
  submitted_Distinct id nonce now s =
      submit_in-Distinct grace now id (map to_lower nonce) (height_of (current s)) s

  submit-Holds :
      (id nonce : Bytes) (now : ℕ) (s : JobStore) (log : List Share) (o : SubmissionOutcome)
      → (record_submission id nonce grace now s).0 ≡ o
      → Holds now s log
      → Holds now (record_submission id nonce grace now s).1 (with_accepted id nonce o log)
  unfolding record_submission
  submit-Holds id nonce now s log unknown_job e h =
      (submitted_Distinct id nonce now s h.0, h.1, All-imply log (submitted id nonce now s) h.2)
  submit-Holds id nonce now s log stale e h =
      (submitted_Distinct id nonce now s h.0, h.1, All-imply log (submitted id nonce now s) h.2)
  submit-Holds id nonce now s log duplicate e h =
      (submitted_Distinct id nonce now s h.0, h.1, All-imply log (submitted id nonce now s) h.2)
  submit-Holds id nonce now s log (accepted job) e h =
      let n = map to_lower nonce in
      let height = height_of (current s) in
      let first =
        All-imply log
          (λ q k same.
            submit_in-refused grace id n now height s job
              (subst (λ r. All (Guarded grace r.0 r.1 now height) s) same k) e)
          h.2 in
      let taken = submit_in-accepts grace now id n height s job h.0 e in
      (
        submitted_Distinct id nonce now s h.0,
        (first, h.1),
        (
          rw (current-submit_in id n grace now height s) taken,
          All-imply log (submitted id nonce now s) h.2,
        ),
      )

  Run-Holds : (now : ℕ) (s : JobStore) (log : List Share) → Run grace now s log → Holds now s log
  Run-Holds now _ _ (begins _) = (tt, tt, tt)
  Run-Holds _ s log (waits d now _ _ r) =
      let h = Run-Holds now s log r in
      (
        h.0,
        h.1,
        All-imply log
            (λ p. All-imply s (λ e.
              Guarded-ages grace p.0 p.1 now (now + d) (height_of (current s))
                (height_of (current s)) e (omega arith) (Grows-refl (height_of (current s)))))
            h.2,
      )
  Run-Holds now _ log (publishes job _ s _ u new g r) =
      publish-Holds job now s log u new g (Run-Holds now s log r)
  Run-Holds now _ _ (submits id nonce _ s log r) =
      submit-Holds id nonce now s log _ refl (Run-Holds now s log r)

-- Whatever is published and submitted, and however the time passes, no share is accepted twice: not
-- for the same job and the same nonce, upper and lower case letters taken as equal. The grace
-- period stays the same, ids are not used again, and the heights do not fall.
pub accepted_once :
    (grace now : ℕ) (s : JobStore) (log : List Share) → Run grace now s log → AllDifferent log
accepted_once grace now s log r = (Run-Holds grace now s log r).1
