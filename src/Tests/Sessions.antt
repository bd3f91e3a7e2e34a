-- ===== src/Tests/Sessions.antt =====
-- Runs of crates/stratum-proxy/src/session.rs and crates/stratum-proxy/src/vardiff.rs.
use cr_faucet.Common.{
  ℕ, ◌+◌, ◌-◌, ◌*◌, ◌/◌, ◌≤◌, ◌≡◌, ◌≢◌, true, false, some, List, [], ◌∷◌, ◌++◌, Bytes, bytes_eq,
  refl, arith, length, max, min, ltb, leb, take, drop,
}
use cr_faucet.PoolCore.Stratum.{from_le_bytes, diff_to_target_hex}
use cr_faucet.StratumProxy.Jobs.{
  UpstreamJob, current, publish, close_last, record_submission, submit_in, submit_to, is_stale,
  member,
}
use cr_faucet.StratumProxy.Jobs.Replay.{AllDifferent}
use cr_faucet.StratumProxy.Share.{
  zeros, verify_share, assemble_blob_with_nonce, put_nonce, judge, meets_difficulty,
}
use cr_faucet.StratumProxy.Vardiff.{
  Floating, Vardiff, new, serve, retarget, retarget_with_gap, honor_cap, judged_avg, window_avg,
  adjust, effective_max, set_upstream_cap, on_share, push_interval,
}
use cr_faucet.StratumProxy.Vardiff.Bounds.{Served, serve_bounds, new-IsSane}
use cr_faucet.StratumProxy.Session.{
  advertised_diff, note_advertised, is_noted, hex_byte, nonce_hi_hex, stamp_worker_byte,
  nonce_high_byte, parse_byte,
}
use cr_faucet.StratumProxy.Session.Advertised.{note_all, difficulty_kept}
use cr_faucet.StratumProxy.Session.Nonce.{Stamped, worker_of, stamp_roundtrip, slices_disjoint}
use cr_faucet.StratumProxy.Session.Parts.{
  SubmitParams, login, submit, Request, Services, Session, Connection, Library, Chance, keep_open,
  panicked,
}
use cr_faucet.StratumProxy.Session.Handler.{
  handle_request, handle_login, serve_job, advertise, job_to_json, write_line, check_diff,
  submit_share, judge_share, accept_share, should_verify, verdict,
}
use cr_faucet.StratumProxy.Session.Loop.{
  Event, request, new_job, StratumConfig, open_session, react, run,
}
use cr_faucet.StratumProxy.Session.Credit.{CreditsAtMostOne, credit_sound}
use cr_faucet.StratumProxy.Session.Once.{
  History, starts, announces, takes, keys, logged_event, credited_once,
}
use cr_faucet.StratumProxy.Session.Serving.{json_of, after_serving, serve_promise}
use cr_faucet.StratumProxy.Session.Gauge.{Serving, guarded, gauge_exact}
use cr_faucet.StratumProxy.Session.Calm.{never_panics}

-- Whole numbers in place of floating-point ones; texts stand for their bytes; every hash is zero.
abbrev whole : Floating ℕ
whole = record {
  of_nat = λ n. n;
  add = λ a b. a + b;
  sub = λ a b. a - b;
  mul = λ a b. a * b;
  div = λ a b. a / b;
  lt = ltb;
  le = leb;
  max = λ a b. max a b;
  clamp = λ x lo hi. max lo (min x hi);
  round = λ n. n;
  as_secs = λ n. n / 1_000_000_000;
}

abbrev library : Library
library = record {
  parse_address = λ text. some 7;
  encode = λ b. b;
  decode = λ b. some b;
  hash = λ seed blob. some zeros;
}

abbrev conn : Connection ℕ
conn = record {
  session_id = [];
  worker_byte = 171;
  sample_cfg = record { warmup = 5; sample_rate = 0 };
  share_grace = 1000;
}

abbrev chance : Chance ℕ
chance = record {
  now = 0;
  judged_at = 1;
  gen_bool = λ rate. false;
  joined = true;
  delivered = true;
}

abbrev settings : StratumConfig ℕ
settings = record {
  min_share_difficulty = 10;
  target_seconds_per_share = 20;
  vardiff = record {
    sample_size = 16;
    variance_percent = 30;
    max_gain_factor = 2;
    max_drop_factor = 1;
  };
}

abbrev job : UpstreamJob
job = record {
  job_id = 1 ∷ [];
  blob_hex = zeros ++ zeros ++ zeros;
  seed_hex = zeros;
  upstream_target_hex = [];
  upstream_diff = 50;
  height = some 1;
}

abbrev idle_services : Services
idle_services = record { jobs = []; credited = []; submitted = []; live = 0 }

abbrev announced : Services
announced = record idle_services { jobs = publish 0 job [] }

abbrev params : SubmitParams
params = record { job_id = 1 ∷ []; nonce = 1 ∷ 2 ∷ 3 ∷ 4 ∷ []; result = zeros }

abbrev asks_login : Event
asks_login = request (record { id = 1; method = login (some []) })

abbrev asks_submit : Request
asks_submit = record { id = 2; method = submit (some params) }

abbrev fresh : Session ℕ
fresh = open_session whole settings 0

abbrev first : Session ℕ
first = (react whole library conn chance asks_login announced fresh).session

abbrev welcomed : Services
welcomed = (react whole library conn chance asks_login announced fresh).services

credit_sound_example :
    CreditsAtMostOne whole library conn chance announced first
      (submit (some params))
      (handle_request whole library conn chance asks_submit announced first).services
credit_sound_example = credit_sound whole library conn chance asks_submit announced first

starts_alone : History whole library 1000 0 announced []
unfolding current
starts_alone = announces job 0 idle_services [] tt tt tt (starts 0 0)

credited_once_example :
    let after = (react whole library conn chance (request asks_submit) announced first).services in
    let log =
      logged_event whole library conn 0 announced.jobs [] first.miner (request asks_submit) in
    AllDifferent log × (length after.credited ≤ length log) × AllDifferent (keys after.submitted)
credited_once_example =
    credited_once whole library 1000 0 _ _
      (takes conn chance (request asks_submit) first 0 announced [] refl refl starts_alone)

abbrev quiet : List (Chance ℕ × Event × Services)
quiet = (chance, asks_login, idle_services) ∷ (chance, new_job job, idle_services) ∷ []

never_panics_example : (run whole library conn quiet (open_session whole settings 0)).0 ≢ panicked
unfolding current
never_panics_example =
    never_panics whole library conn settings 0 quiet (λ c. omega arith)
      ((tt, tt), (omega arith, tt))

abbrev controller : Vardiff ℕ
controller = new whole 10 20 9_223_372_036_854_775_807 20 settings.vardiff 0

served_to : Serving whole library announced (fresh ∷ [])
served_to =
    Serving.connects settings 0 announced []
      (Serving.announces job 0 idle_services [] (Serving.starts idle_services refl))

stays_open : (react whole library conn chance asks_login announced fresh).flow ≡ keep_open
unfolding react handle_request handle_login serve_job advertise job_to_json write_line open_session
    new serve retarget retarget_with_gap honor_cap judged_avg window_avg adjust effective_max
    set_upstream_cap stamp_worker_byte note_advertised publish close_last current
stays_open = refl

gauge_exact_example : welcomed.live ≡ guarded (first ∷ [])
gauge_exact_example =
    gauge_exact whole library welcomed (first ∷ [])
      (Serving.stays conn chance asks_login fresh [] [] announced served_to stays_open)

abbrev stamped_blob : Bytes
stamped_blob = take 84 job.blob_hex ++ (b'a' ∷ b'b' ∷ drop 86 job.blob_hex)

abbrev served_vardiff : Vardiff ℕ
served_vardiff = record controller { upstream_cap = 50 }

abbrev served_session : Session ℕ
served_session = after_serving whole library conn 0 job fresh 20 served_vardiff

serves_job :
    serve_job whole library conn 0 job fresh
    ≡ some (json_of whole library conn 0 job fresh 20 stamped_blob, served_session)
unfolding serve_job advertise job_to_json open_session new serve retarget retarget_with_gap
    honor_cap judged_avg window_avg adjust effective_max set_upstream_cap stamp_worker_byte
    note_advertised
serves_job = refl

serve_promise_example :
    (d : ℕ) × (serve whole 0 job.upstream_diff fresh.vardiff ≡ some (d, served_session.vardiff))
    × ((json_of whole library conn 0 job fresh 20 stamped_blob).target
        ≡ diff_to_target_hex library.encode d)
    × (stamp_worker_byte job.blob_hex 171 ≡ some stamped_blob)
    × (is_noted (1 ∷ []) fresh.advertised ≡ false
        → check_diff whole library conn (1 ∷ []) served_session ≡ d)
    × (is_noted (1 ∷ []) fresh.advertised ≡ true → served_session.advertised ≡ fresh.advertised)
unfolding open_session
serve_promise_example =
    serve_promise whole library conn 0 job fresh
      (json_of whole library conn 0 job fresh 20 stamped_blob) served_session (omega arith)
      serves_job

difficulty_kept_example :
    advertised_diff
      (1 ∷ [])
      (note_all ((2 ∷ [], 40) ∷ (1 ∷ [], 99) ∷ []) (note_advertised (1 ∷ []) 20 []))
    ≡ some 20
difficulty_kept_example =
    difficulty_kept (1 ∷ []) 20 ((2 ∷ [], 40) ∷ (1 ∷ [], 99) ∷ []) [] (omega arith) refl
      (omega arith)

stamp_roundtrip_example :
    (out : Bytes) × (stamp_worker_byte job.blob_hex 171 ≡ some out)
    × Stamped job.blob_hex 171 out
    × (nonce_high_byte ((49 ∷ 50 ∷ 51 ∷ 52 ∷ 53 ∷ 54 ∷ []) ++ take 2 (drop nonce_hi_hex out))
        ≡ some (some 171))
stamp_roundtrip_example =
    stamp_roundtrip job.blob_hex (49 ∷ 50 ∷ 51 ∷ 52 ∷ 53 ∷ 54 ∷ []) 171 (omega arith) (omega arith)
      (omega arith) refl

slices_disjoint_example :
    (49 ∷ 50 ∷ 51 ∷ 52 ∷ 53 ∷ 54 ∷ []) ++ hex_byte (worker_of 255)
    ≢ (49 ∷ 50 ∷ 51 ∷ 52 ∷ 53 ∷ 54 ∷ []) ++ hex_byte (worker_of 256)
slices_disjoint_example =
    slices_disjoint 255 256 (49 ∷ 50 ∷ 51 ∷ 52 ∷ 53 ∷ 54 ∷ []) (49 ∷ 50 ∷ 51 ∷ 52 ∷ 53 ∷ 54 ∷ [])
      (omega arith) (omega arith) refl refl

serve_bounds_example : Served whole 50 controller (serve whole 0 50 controller)
unfolding new
serve_bounds_example =
    serve_bounds whole 0 50 controller
      (new-IsSane whole 10 20 9_223_372_036_854_775_807 20 0 settings.vardiff) (λ c. omega arith)

-- The share is credited at the 20 that was advertised, and handed on since zeros meet any difficulty.
credits_share :
    (handle_request whole library conn chance asks_submit announced first).services.credited
    ≡ record {
      miner = 7;
      job_id = 1 ∷ [];
      difficulty = 20;
      accepted_at = 1;
      forwarded_upstream = true;
    }
      ∷ []
unfolding react handle_request handle_login serve_job advertise job_to_json write_line open_session
    new serve retarget retarget_with_gap honor_cap judged_avg window_avg adjust effective_max
    set_upstream_cap stamp_worker_byte note_advertised publish close_last current submit_share
    judge_share accept_share check_diff should_verify verdict verify_share assemble_blob_with_nonce
    put_nonce judge meets_difficulty from_le_bytes advertised_diff nonce_high_byte parse_byte
    record_submission submit_in submit_to is_stale member bytes_eq on_share push_interval
credits_share = refl
