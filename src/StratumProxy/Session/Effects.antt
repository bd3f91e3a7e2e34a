-- ===== src/StratumProxy/Session/Effects.antt =====
-- What a message to a session of crates/stratum-proxy/src/session.rs does to what the sessions share.
use cr_faucet.Common.{
  ℕ, ◌≡◌, ◌==◌, Bool, true, false, Option, none, some, ◌∷◌, Bytes, length, refl, arith, ◌⊎◌, inl,
  inr, Bool-cases, if◌then◌else◌,
}
use cr_faucet.Common.Results.{Result, ok, err}
use cr_faucet.StratumProxy.Jobs.{
  UpstreamJob, SubmissionOutcome, unknown_job, stale, duplicate, record_submission, accepted,
}
use cr_faucet.StratumProxy.Share.{
  ShareOutcome, VerifyInput, VerifyError, verify_share, accept_claimed_result, meets_difficulty,
  judge, accept_decoded, below_difficulty, invalid_hash, bad_blob,
}
use cr_faucet.StratumProxy.Share.Agreement.{IsEarned, verify_share_sound, judge_accepts}
use cr_faucet.StratumProxy.Vardiff.{Floating}
use cr_faucet.StratumProxy.Session.{nonce_high_byte}
use cr_faucet.StratumProxy.Session.Parts.{
  SubmitParams, JobJson, Message, Services, Session, Connection, Library, Chance, Flow,
}
use cr_faucet.StratumProxy.Session.Handler.{
  write_line, greet, login_as, handle_login, should_verify, check_diff, input_of, outcome_of,
  verdict, accept_share, reject_share, settle_share, judge_share, on_outcome, submit_checked,
  submit_share, push_to, pushed, push_job, serve_job,
}

some_inj : {A : Type 0} {a b : A} → some a ≡ some b → a ≡ b
some_inj e = cc

module _ {F : Type 0} (fl : Floating F) (lib : Library) (conn : Connection F) where
  -- What a share rests on that was accepted: a hash of the verifier, or the word of the miner.
  abbrev pub Rests : VerifyInput → Bool → Bool → Type 0
  Rests input true forwarded = (h : Bytes) × IsEarned lib.decode lib.hash input h forwarded
  Rests input false forwarded =
      (h : Bytes) × (lib.decode input.claimed_result_hex ≡ some h)
      × (length h ≡ 32)
      × (meets_difficulty h input.session_difficulty ≡ true)
      × (forwarded ≡ meets_difficulty h input.job.upstream_diff)

  outcome_accepted :
      (r : Result VerifyError (ShareOutcome × Bytes)) (forwarded : Bool)
      → outcome_of fl lib conn r ≡ some (ShareOutcome.accepted forwarded)
      → (h : Bytes) × (r ≡ ok (ShareOutcome.accepted forwarded, h))
  outcome_accepted (ok (o, h)) forwarded e = (h, cc)
  outcome_accepted (err _) forwarded e = cc

  claimed_accepted :
      (input : VerifyInput) (o : Option Bytes) (forwarded : Bool)
      → lib.decode input.claimed_result_hex ≡ o
      → (accept_decoded input o).0 ≡ ShareOutcome.accepted forwarded
      → Rests input false forwarded
  claimed_accepted input none forwarded d e = cc
  claimed_accepted input (some b) forwarded d e = elim (Bool-cases (length b == 32)) [
    | inl q ↦
        let j : (judge input b).0 ≡ ShareOutcome.accepted forwarded = ground (arith, e) in
        let (same, meets, up) =
          judge_accepts input b (judge input b).1 forwarded (λ i. (j i, (judge input b).1)) in
        (b, d, ground arith, meets, up)
    | inr q ↦ ground (arith, e)
  ]

  pub verdict-Rests :
      (ch : Chance F) (input : VerifyInput) (did_verify forwarded : Bool)
      → verdict fl lib conn ch did_verify input ≡ some (ShareOutcome.accepted forwarded)
      → Rests input did_verify forwarded
  unfolding verdict
  verdict-Rests ch input true forwarded e = elim (Bool-cases ch.joined) [
    | inl q ↦
        let (h, r) =
          outcome_accepted (verify_share lib.decode lib.hash input) forwarded (rw q at e) in
        (h, verify_share_sound lib.decode lib.hash input h forwarded r)
    | inr q ↦ ground (arith, e)
  ]
  verdict-Rests ch input false forwarded e =
      claimed_accepted input (lib.decode input.claimed_result_hex) forwarded refl
        (unfold accept_claimed_result in some_inj e)

  pub services-write_line :
      (ch : Chance F) (m : Message) (flow : Flow) (sv : Services) (s : Session F)
      → (write_line fl lib conn ch m flow sv s).services ≡ sv
  unfolding write_line
  services-write_line ch m flow sv s = ground arith

  -- The services with one more credit, and the share handed on if it meets the upstream's difficulty.
  abbrev pub with_credit : Chance F → ℕ → SubmitParams → Bool → Session F → Services → Services
  with_credit ch addr p forwarded s sv = record sv {
    credited =
        record {
          miner = addr;
          job_id = p.job_id;
          difficulty = check_diff fl lib conn p.job_id s;
          accepted_at = ch.judged_at;
          forwarded_upstream = forwarded;
        }
        ∷ sv.credited;
    submitted =
        if forwarded
        then record { job_id = p.job_id; nonce_hex = p.nonce; result_hex = p.result } ∷ sv.submitted
        else sv.submitted;
  }

  module _ (ch : Chance F) (id addr : ℕ) (p : SubmitParams) (s : Session F) where
    services-settle_share :
        (did : Bool) (sv : Services) (o : Option ShareOutcome)
        → ((settle_share fl lib conn ch id did addr p sv s o).services ≡ sv)
          ⊎ ((forwarded : Bool) × (o ≡ some (ShareOutcome.accepted forwarded))
              × ((settle_share fl lib conn ch id did addr p sv s o).services
                  ≡ with_credit ch addr p forwarded s sv))
    unfolding accept_share reject_share
    services-settle_share did sv none = inl refl
    services-settle_share did sv (some (ShareOutcome.accepted forwarded)) =
        inr (forwarded, refl, services-write_line ch _ _ _ _)
    services-settle_share did sv (some below_difficulty) = inl (services-write_line ch _ _ sv _)
    services-settle_share did sv (some invalid_hash) = inl (services-write_line ch _ _ sv _)
    services-settle_share did sv (some ShareOutcome.unknown_job) =
        inl (services-write_line ch _ _ sv _)
    services-settle_share did sv (some bad_blob) = inl (services-write_line ch _ _ sv _)

    -- What a submission does to the services, by what the job store says of it.
    abbrev pub Submits : Services → SubmissionOutcome → Services → Type 0
    Submits sv o after =
        (after ≡ sv)
        ⊎ ((job : UpstreamJob) × (forwarded : Bool) × (o ≡ accepted job)
            × Rests (input_of fl lib conn job p s)
                (should_verify fl lib conn ch.gen_bool s.verified_count) forwarded
            × (after ≡ with_credit ch addr p forwarded s sv))

    pub on_outcome-Submits :
        (sv : Services) (o : SubmissionOutcome)
        → Submits sv o (on_outcome fl lib conn ch id addr p sv s o).services
    unfolding judge_share
    on_outcome-Submits sv unknown_job = inl (services-write_line ch _ _ sv s)
    on_outcome-Submits sv stale = inl (services-write_line ch _ _ sv s)
    on_outcome-Submits sv duplicate = inl (services-write_line ch _ _ sv s)
    on_outcome-Submits sv (accepted job) =
        let did = should_verify fl lib conn ch.gen_bool s.verified_count in
        let input = input_of fl lib conn job p s in
        elim (services-settle_share did sv (verdict fl lib conn ch did input)) [
          | inl e ↦ inl e
          | inr (forwarded, v, e) ↦
              inr (job, forwarded, refl, verdict-Rests ch input did forwarded v, e)
        ]

    abbrev pub recorded : Services → SubmissionOutcome × Services
    recorded sv =
        let r = record_submission p.job_id p.nonce conn.share_grace ch.now sv.jobs in
        (r.0, record sv { jobs = r.1 })

    pub submit_checked-Submits :
        (sv : Services) (o : Option (Option ℕ))
        → ((submit_checked fl lib conn ch id addr p sv s o).services ≡ sv)
          ⊎ Submits
              (recorded sv).1
              (recorded sv).0
              (submit_checked fl lib conn ch id addr p sv s o).services
    submit_checked-Submits sv none = inl refl
    submit_checked-Submits sv (some _) = inr (on_outcome-Submits (recorded sv).1 (recorded sv).0)

    pub submit_share-Submits :
        (sv : Services)
        → ((submit_share fl lib conn ch id addr p sv s).services ≡ sv)
          ⊎ Submits
              (recorded sv).1
              (recorded sv).0
              (submit_share fl lib conn ch id addr p sv s).services
    unfolding submit_share
    submit_share-Submits sv = submit_checked-Submits sv (nonce_high_byte p.nonce)

  services-greet :
      (ch : Chance F) (id : ℕ) (sv : Services) (s : Session F)
      (r : Option (Option JobJson × Session F))
      → (greet fl lib conn ch id sv s r).services ≡ sv
  services-greet ch id sv s none = refl
  services-greet ch id sv s (some (job, s')) = services-write_line ch _ _ sv s'

  services-login_as :
      (ch : Chance F) (id : ℕ) (sv : Services) (s : Session F) (o : Option ℕ)
      → (login_as fl lib conn ch id sv s o).services ≡ sv
  services-login_as ch id sv s none = services-write_line ch _ _ sv s
  services-login_as ch id sv s (some addr) = services-greet ch id sv _ _

  pub services-handle_login :
      (ch : Chance F) (id : ℕ) (sv : Services) (s : Session F) (text : Option Bytes)
      → (handle_login fl lib conn ch id sv s text).services ≡ sv
  unfolding handle_login
  services-handle_login ch id sv s none = refl
  services-handle_login ch id sv s (some text) =
      services-login_as ch id sv s (lib.parse_address text)

  services-pushed :
      (ch : Chance F) (sv : Services) (s : Session F) (r : Option (JobJson × Session F))
      → (pushed fl lib conn ch sv s r).services ≡ sv
  services-pushed ch sv s none = refl
  services-pushed ch sv s (some (json, s')) = services-write_line ch _ _ sv s'

  services-push_to :
      (ch : Chance F) (job : UpstreamJob) (sv : Services) (s : Session F) (o : Option ℕ)
      → (push_to fl lib conn ch job sv s o).services ≡ sv
  services-push_to ch job sv s none = refl
  services-push_to ch job sv s (some a) =
      services-pushed ch sv s (serve_job fl lib conn ch.now job s)

  -- A job that is pushed changes nothing that the sessions share.
  pub services-push_job :
      (ch : Chance F) (job : UpstreamJob) (sv : Services) (s : Session F)
      → (push_job fl lib conn ch job sv s).services ≡ sv
  unfolding push_job
  services-push_job ch job sv s = services-push_to ch job sv s s.miner
