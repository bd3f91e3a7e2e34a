-- ===== src/Tests/Shares.antt =====
-- Runs of crates/stratum-proxy/src/jobs.rs.
use cr_faucet.Common.{◌≡◌, some, List, [], ◌∷◌, refl, bytes_eq}
use cr_faucet.StratumProxy.Jobs.{
  UpstreamJob, JobStore, accepted, duplicate, publish, current, record_submission, close_last,
  submit_in, submit_to, is_stale, member,
}
use cr_faucet.StratumProxy.Jobs.Replay.{
  Run, begins, publishes, submits, Share, AllDifferent, with_accepted, accepted_once,
}

abbrev job : UpstreamJob
job = record {
  job_id = 1 ∷ [];
  blob_hex = [];
  seed_hex = [];
  upstream_target_hex = [];
  upstream_diff = 1;
  height = some 10;
}

-- The job is published, and two sessions submit one nonce, in upper and in lower case.
abbrev published : JobStore
published = publish 0 job []

abbrev first : JobStore
first = (record_submission (1 ∷ []) (65 ∷ []) 1000 0 published).1

abbrev log : List Share
log = with_accepted (1 ∷ []) (65 ∷ []) (record_submission (1 ∷ []) (65 ∷ []) 1000 0 published).0 []

abbrev second : JobStore
second = (record_submission (1 ∷ []) (97 ∷ []) 1000 0 first).1

abbrev later_log : List Share
later_log =
    with_accepted (1 ∷ []) (97 ∷ []) (record_submission (1 ∷ []) (97 ∷ []) 1000 0 first).0 log

is_taken : (record_submission (1 ∷ []) (65 ∷ []) 1000 0 published).0 ≡ accepted job
unfolding publish close_last record_submission submit_in submit_to is_stale member current bytes_eq
is_taken = refl

is_replayed : (record_submission (1 ∷ []) (97 ∷ []) 1000 0 first).0 ≡ duplicate
unfolding publish close_last record_submission submit_in submit_to is_stale member current bytes_eq
is_replayed = refl

starts_empty : Run 1000 0 published []
unfolding current
starts_empty = publishes job 0 [] [] tt tt tt (begins 0)

accepted_once_example : AllDifferent later_log
accepted_once_example = accepted_once 1000 0 second later_log (
    submits (1 ∷ []) (97 ∷ []) 0 first log (submits (1 ∷ []) (65 ∷ []) 0 published [] starts_empty))
