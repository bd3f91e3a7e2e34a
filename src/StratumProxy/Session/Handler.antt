-- ===== src/StratumProxy/Session/Handler.antt =====
-- handle_request of crates/stratum-proxy/src/session.rs, whole, with push_job and should_verify.
use cr_faucet.Common.{
  ℕ, ◌+◌, ◌-◌, ◌^◌, Bool, true, false, ◌&&◌, Option, none, some, [], ◌∷◌, ◌++◌, Bytes, ltb, ◌==◌,
  if◌then◌else◌, min,
}
use cr_faucet.Common.Int.{ℤ, negsuc}
use cr_faucet.Common.Results.{Result, ok, err}
use cr_faucet.PoolCore.Stratum.{diff_to_target_hex}
use cr_faucet.StratumProxy.Jobs.{
  UpstreamJob, SubmissionOutcome, unknown_job, stale, duplicate, current, record_submission,
}
use cr_faucet.StratumProxy.Share.{
  ShareOutcome, VerifyInput, VerifyError, verify_share, accept_claimed_result, below_difficulty,
  invalid_hash, bad_blob,
}
use cr_faucet.StratumProxy.Vardiff.{Floating, ◌>>=◌, on_share, serve}
use cr_faucet.StratumProxy.Session.{
  note_advertised, advertised_diff, stamp_worker_byte, nonce_high_byte,
}
use cr_faucet.StratumProxy.Session.Parts.{
  SubmitParams, Method, login, submit, keepalived, other, Request, JobJson, logged_in, status_ok,
  status_keepalived, error, Message, response, notification, ShareAccepted, UpstreamSubmit,
  Services, Session, Connection, Library, Chance, Flow, keep_open, close, failed, panicked, Step,
}

module _ {F : Type 0} (fl : Floating F) (lib : Library) (conn : Connection F) where
  abbrev pub stop : Flow → Services → Session F → Step F
  stop flow sv s = record { flow = flow; services = sv; session = s }

  -- The session ends with an error if the connection does not take the message.
  unfoldable pub write_line : Chance F → Message → Flow → Services → Session F → Step F
  write_line ch m flow sv s =
      if ch.delivered
      then stop flow sv (record s { written = s.written ++ (m ∷ []) })
      else stop failed sv s

  abbrev pub refuse : Chance F → ℕ → ℤ → Services → Session F → Step F
  refuse ch id code sv s = write_line ch (response id (error code)) keep_open sv s

  unfoldable pub job_to_json : UpstreamJob → ℕ → Option JobJson
  job_to_json job local_diff = do
    blob ← stamp_worker_byte job.blob_hex conn.worker_byte
    some (record {
      id = conn.session_id;
      job_id = job.job_id;
      blob = blob;
      seed_hash = job.seed_hex;
      target = diff_to_target_hex lib.encode local_diff;
      height = job.height;
    })

  -- The cap, the retarget and the note, which a login and a new job have in common.
  unfoldable pub advertise : ℕ → UpstreamJob → Session F → Option (ℕ × Session F)
  advertise now job s = do
    (diff, v) ← serve fl now job.upstream_diff s.vardiff
    some (diff, record s { vardiff = v; advertised = note_advertised job.job_id diff s.advertised })

  unfoldable pub serve_job : ℕ → UpstreamJob → Session F → Option (JobJson × Session F)
  unfolding advertise job_to_json
  serve_job now job s = do
    (diff, s') ← advertise now job s
    json ← job_to_json job diff
    some (json, s')

  abbrev pub login_job : ℕ → Option UpstreamJob → Session F → Option (Option JobJson × Session F)
  login_job now none s = some (none, s)
  login_job now (some job) s = do (json, s') ← serve_job now job s; some (some json, s')

  abbrev pub greet :
      Chance F → ℕ → Services → Session F → Option (Option JobJson × Session F) → Step F
  greet ch id sv s none = stop panicked sv s
  greet ch id sv s (some (job, s')) =
      write_line ch (response id (logged_in conn.session_id job)) keep_open sv s'

  abbrev pub login_as : Chance F → ℕ → Services → Session F → Option ℕ → Step F
  login_as ch id sv s none = refuse ch id (negsuc 0) sv s
  login_as ch id sv s (some addr) =
      let s' = record s { miner = some addr } in
      greet ch id sv s' (login_job ch.now (current sv.jobs) s')

  unfoldable pub handle_login : Chance F → ℕ → Services → Session F → Option Bytes → Step F
  unfolding serve_job write_line
  handle_login ch id sv s none = stop failed sv s
  handle_login ch id sv s (some text) = login_as ch id sv s (lib.parse_address text)

  unfoldable pub should_verify : (F → Bool) → ℕ → Bool
  should_verify gen_bool verified_count =
      let c = conn.sample_cfg in
      if ltb verified_count c.warmup
      then true
      else gen_bool (fl.clamp c.sample_rate (fl.of_nat 0) (fl.of_nat 1))

  abbrev pub or_floor : ℕ → Option ℕ → ℕ
  or_floor floor none = floor
  or_floor floor (some d) = d

  -- The difficulty that a share is judged and credited at.
  unfoldable pub check_diff : Bytes → Session F → ℕ
  check_diff job_id s = or_floor s.vardiff.min (advertised_diff job_id s.advertised)

  abbrev pub input_of : UpstreamJob → SubmitParams → Session F → VerifyInput
  input_of job p s = record {
    job = job;
    session_difficulty = check_diff p.job_id s;
    nonce_hex = p.nonce;
    claimed_result_hex = p.result;
  }

  abbrev pub outcome_of : Result VerifyError (ShareOutcome × Bytes) → Option ShareOutcome
  outcome_of (ok (outcome, _)) = some outcome
  outcome_of (err _) = none

  -- `none` is an error of the verification, which ends the session.
  unfoldable pub verdict : Chance F → Bool → VerifyInput → Option ShareOutcome
  verdict ch did_verify input =
      if did_verify
      then if ch.joined then outcome_of (verify_share lib.decode lib.hash input) else none
      else some (accept_claimed_result lib.decode input).0

  -- `saturating_add(1)` on a `u32`.
  abbrev pub count_up : ℕ → ℕ
  count_up n = min (n + 1) (2 ^ 32 - 1)

  unfoldable pub accept_share :
      Chance F → ℕ → Bool → Bool → ℕ → SubmitParams → Services → Session F → Step F
  accept_share ch id did_verify forwarded addr p sv s =
      let share : ShareAccepted = record {
        miner = addr;
        job_id = p.job_id;
        difficulty = check_diff p.job_id s;
        accepted_at = ch.judged_at;
        forwarded_upstream = forwarded;
      } in
      let sub : UpstreamSubmit = record {
        job_id = p.job_id;
        nonce_hex = p.nonce;
        result_hex = p.result;
      } in
      write_line ch (response id status_ok) keep_open
        (record sv {
          credited = share ∷ sv.credited;
          submitted = if forwarded then sub ∷ sv.submitted else sv.submitted;
        })
        (record s {
          verified_count = if did_verify then count_up s.verified_count else s.verified_count;
          vardiff = on_share fl ch.judged_at s.vardiff;
        })

  -- A rejected share costs the trust; the first one that was verified costs the connection.
  unfoldable pub reject_share : Chance F → ℕ → Bool → Bool → ℤ → Services → Session F → Step F
  reject_share ch id did_verify kicked code sv s =
      let kick = did_verify && (s.verified_count == 0) && kicked in
      write_line ch (response id (error code)) (if kick then close else keep_open) sv
        (record s { verified_count = 0 })

  abbrev pub settle_share :
      Chance F → ℕ → Bool → ℕ → SubmitParams → Services → Session F → Option ShareOutcome → Step F
  settle_share ch id v addr p sv s none = stop failed sv s
  settle_share ch id v addr p sv s (some (ShareOutcome.accepted forwarded)) =
      accept_share ch id v forwarded addr p sv s
  settle_share ch id v addr p sv s (some below_difficulty) =
      reject_share ch id v true (negsuc 4) sv s
  settle_share ch id v addr p sv s (some invalid_hash) = reject_share ch id v true (negsuc 5) sv s
  settle_share ch id v addr p sv s (some ShareOutcome.unknown_job) =
      reject_share ch id v false (negsuc 3) sv s
  settle_share ch id v addr p sv s (some bad_blob) = reject_share ch id v true (negsuc 6) sv s

  unfoldable pub judge_share :
      Chance F → ℕ → ℕ → SubmitParams → UpstreamJob → Services → Session F → Step F
  judge_share ch id addr p job sv s =
      let did_verify = should_verify ch.gen_bool s.verified_count in
      settle_share ch id did_verify addr p sv s (verdict ch did_verify (input_of job p s))

  abbrev pub on_outcome :
      Chance F → ℕ → ℕ → SubmitParams → Services → Session F → SubmissionOutcome → Step F
  on_outcome ch id addr p sv s (SubmissionOutcome.accepted job) = judge_share ch id addr p job sv s
  on_outcome ch id addr p sv s duplicate = refuse ch id (negsuc 2) sv s
  on_outcome ch id addr p sv s unknown_job = refuse ch id (negsuc 3) sv s
  on_outcome ch id addr p sv s stale = refuse ch id (negsuc 7) sv s

  -- The check of the high byte only warns, but it can panic.
  abbrev pub submit_checked :
      Chance F → ℕ → ℕ → SubmitParams → Services → Session F → Option (Option ℕ) → Step F
  submit_checked ch id addr p sv s none = stop panicked sv s
  submit_checked ch id addr p sv s (some _) =
      let r = record_submission p.job_id p.nonce conn.share_grace ch.now sv.jobs in
      on_outcome ch id addr p (record sv { jobs = r.1 }) s r.0

  unfoldable pub submit_share : Chance F → ℕ → ℕ → SubmitParams → Services → Session F → Step F
  submit_share ch id addr p sv s = submit_checked ch id addr p sv s (nonce_high_byte p.nonce)

  abbrev pub handle_submit :
      Chance F → ℕ → Services → Session F → Option ℕ → Option SubmitParams → Step F
  handle_submit ch id sv s none params = refuse ch id (negsuc 1) sv s
  handle_submit ch id sv s (some addr) none = stop failed sv s
  handle_submit ch id sv s (some addr) (some p) = submit_share ch id addr p sv s

  abbrev pub dispatch : Chance F → ℕ → Services → Session F → Method → Step F
  dispatch ch id sv s (login p) = handle_login ch id sv s p
  dispatch ch id sv s (submit p) = handle_submit ch id sv s s.miner p
  dispatch ch id sv s keepalived = write_line ch (response id status_keepalived) keep_open sv s
  dispatch ch id sv s other = stop keep_open sv s

  unfoldable pub handle_request : Chance F → Request → Services → Session F → Step F
  handle_request ch req sv s = dispatch ch req.id sv s req.method

  abbrev pub pushed : Chance F → Services → Session F → Option (JobJson × Session F) → Step F
  pushed ch sv s none = stop panicked sv s
  pushed ch sv s (some (json, s')) = write_line ch (notification json) keep_open sv s'

  -- The arm of `select!` for a new job; nothing is sent before the login.
  abbrev pub push_to : Chance F → UpstreamJob → Services → Session F → Option ℕ → Step F
  push_to ch job sv s none = stop keep_open sv s
  push_to ch job sv s (some _) = pushed ch sv s (serve_job ch.now job s)

  unfoldable pub push_job : Chance F → UpstreamJob → Services → Session F → Step F
  push_job ch job sv s = push_to ch job sv s s.miner
