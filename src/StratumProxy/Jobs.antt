-- ===== src/StratumProxy/Jobs.antt =====
-- crates/stratum-proxy/src/jobs.rs: the jobs that were issued, and the nonces that were accepted for
-- each of them. An instant is a number of nanoseconds, and what is broadcast to the sessions is left
-- out. The lock makes each operation one step.
pub mod Guard
pub mod Ring
pub mod Replay
use cr_faucet.Common.{
  ℕ, suc, ◌-◌, ◌+◌, Bool, true, false, ◌||◌, ◌&&◌, Option, none, some, List, [], ◌∷◌, ◌++◌, map,
  Bytes, bytes_eq, ltb, leb, length, drop, if◌then◌else◌,
}

pub record UpstreamJob : Type 0 where
  pub job_id : Bytes
  pub blob_hex : Bytes
  pub seed_hex : Bytes
  pub upstream_target_hex : Bytes
  pub upstream_diff : ℕ
  pub height : Option ℕ

pub record JobEntry : Type 0 where
  pub job : UpstreamJob
  pub superseded_at : Option ℕ
  pub seen_nonces : List Bytes

pub data SubmissionOutcome : Type 0 where
  unknown_job stale duplicate : SubmissionOutcome
  accepted : UpstreamJob → SubmissionOutcome

abbrev pub ring_size : ℕ
ring_size = 32

-- The entries, the most recent one last.
abbrev pub JobStore : Type 0
JobStore = List JobEntry

abbrev supersede : ℕ → Option ℕ → Option ℕ
supersede now none = some now
supersede now (some t) = some t

-- The last entry is superseded, if it was not yet.
unfoldable pub close_last : ℕ → JobStore → JobStore
close_last now [] = []
close_last now (e ∷ []) = record e { superseded_at = supersede now e.superseded_at } ∷ []
close_last now (e ∷ d ∷ es) = e ∷ close_last now (d ∷ es)

-- Entries leave at the front while there are more than `ring_size`.
unfoldable pub publish : ℕ → UpstreamJob → JobStore → JobStore
unfolding close_last
publish now job s =
    let grown =
      close_last now s ++ (record { job = job; superseded_at = none; seen_nonces = [] } ∷ []) in
    drop (length grown - ring_size) grown

-- `back()`.
unfoldable pub current : JobStore → Option UpstreamJob
current [] = none
current (e ∷ []) = some e.job
current (e ∷ d ∷ es) = current (d ∷ es)

abbrev pub height_of : Option UpstreamJob → Option ℕ
height_of none = none
height_of (some j) = j.height

abbrev pub is_behind : Option ℕ → Option ℕ → Bool
is_behind none _ = false
is_behind (some h) none = false
is_behind (some h) (some c) = ltb h c

abbrev is_stale_since : ℕ → ℕ → Bool → Option ℕ → Bool
is_stale_since grace now behind none = false
is_stale_since grace now behind (some t) = ltb grace (now - t) || behind

unfoldable pub is_stale : ℕ → ℕ → Option ℕ → JobEntry → Bool
is_stale grace now current_height e =
    is_stale_since grace now (is_behind e.job.height current_height) e.superseded_at

unfoldable pub member : Bytes → List Bytes → Bool
member n [] = false
member n (m ∷ ms) = bytes_eq n m || member n ms

-- `to_ascii_lowercase`.
abbrev pub to_lower : ℕ → ℕ
to_lower c = if leb 65 c && leb c 90 then c + 32 else c

-- The tests on the entry that was found.
unfoldable pub submit_to : Bytes → ℕ → ℕ → Option ℕ → JobEntry → SubmissionOutcome × JobEntry
unfolding is_stale member
submit_to nonce grace now current_height e =
    if is_stale grace now current_height e
    then (stale, record e { seen_nonces = [] })
    else if member nonce e.seen_nonces
    then (duplicate, e)
    else (accepted e.job, record e { seen_nonces = nonce ∷ e.seen_nonces })

-- The linear scan.
unfoldable pub submit_in :
    Bytes → Bytes → ℕ → ℕ → Option ℕ → JobStore → SubmissionOutcome × JobStore
unfolding submit_to
submit_in job_id nonce grace now current_height [] = (unknown_job, [])
submit_in job_id nonce grace now current_height (e ∷ es) =
    let rest = submit_in job_id nonce grace now current_height es in
    let found = submit_to nonce grace now current_height e in
    if bytes_eq e.job.job_id job_id then (found.0, found.1 ∷ es) else (rest.0, e ∷ rest.1)

unfoldable pub record_submission : Bytes → Bytes → ℕ → ℕ → JobStore → SubmissionOutcome × JobStore
unfolding submit_in current
record_submission job_id nonce grace now s =
    submit_in job_id (map to_lower nonce) grace now (height_of (current s)) s
