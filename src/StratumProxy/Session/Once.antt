-- ===== src/StratumProxy/Session/Once.antt =====
-- All the sessions of crates/stratum-proxy/src/session.rs on one job store: what is credited and handed
-- to the upstream, however their messages interleave.
use cr_faucet.Common.{
  ℕ, ◌+◌, ◌≤◌, ◌≡◌, ◌≢◌, Bool, true, false, Option, none, some, List, [], ◌∷◌, map, Bytes, bytes_eq,
  length, All, Any, refl, arith, ap, sym, subst, ◌∙◌, inl, inr,
}
use cr_faucet.StratumProxy.Jobs.{
  UpstreamJob, JobStore, SubmissionOutcome, unknown_job, stale, duplicate, accepted, publish,
  current, height_of, record_submission, to_lower,
}
use cr_faucet.StratumProxy.Jobs.Guard.{Grows}
use cr_faucet.StratumProxy.Jobs.Ring.{IsUnissued}
use cr_faucet.StratumProxy.Jobs.Replay.{
  Share, AllDifferent, IsFirst, with_accepted, Run, begins, waits, publishes, submits,
  accepted_once,
}
use cr_faucet.StratumProxy.Vardiff.{Floating}
use cr_faucet.StratumProxy.Session.{nonce_high_byte}
use cr_faucet.StratumProxy.Session.Parts.{
  SubmitParams, Method, login, submit, keepalived, other, UpstreamSubmit, Services, Session,
  Connection, Library, Chance, Flow, keep_open, close, failed, panicked,
}
use cr_faucet.StratumProxy.Session.Handler.{
  submit_checked, submit_share, handle_submit, dispatch, handle_request,
}
use cr_faucet.StratumProxy.Session.Loop.{
  Event, request, new_job, bad_json, ended, broken, arm, after_request, react,
}
use cr_faucet.StratumProxy.Session.Effects.{
  services-push_job, with_credit, Submits, on_outcome-Submits, recorded, services-write_line,
  services-handle_login,
}

-- A share that was handed to the upstream, as the job store knows it.
abbrev pub key : UpstreamSubmit → Share
key u = (u.job_id, map to_lower u.nonce_hex)

abbrev pub keys : List UpstreamSubmit → List Share
keys [] = []
keys (u ∷ us) = key u ∷ keys us

abbrev IsIn : List Share → Share → Type 0
IsIn log q = Any (λ p. p ≡ q) log

-- The credits and the shares of the upstream are among the accepted shares.
pub record Counted (sv : Services) (log : List Share) : Type 0 where
  pub fewer : length sv.credited ≤ length log
  pub known : All (IsIn log) (keys sv.submitted)
  pub different : AllDifferent (keys sv.submitted)

-- The store has a history with these shares, and the services count no others.
pub record IsSound (grace now : ℕ) (sv : Services) (log : List Share) : Type 0 where
  pub run : Run grace now sv.jobs log
  pub counted : Counted sv log

IsIn-more : (p : Share) (log qs : List Share) → All (IsIn log) qs → All (IsIn (p ∷ log)) qs
IsIn-more p log [] h = tt
IsIn-more p log (q ∷ qs) h = (inr h.0, IsIn-more p log qs h.1)

IsIn-differs : (log : List Share) (p q : Share) → IsFirst p log → IsIn log q → q ≢ p
IsIn-differs [] p q h k = elim k [ ]
IsIn-differs (x ∷ log) p q h (inl e) = λ same. h.0 (e ∙ same)
IsIn-differs (x ∷ log) p q h (inr k) = IsIn-differs log p q h.1 k

keys-IsFirst : (log qs : List Share) (p : Share) → IsFirst p log → All (IsIn log) qs → IsFirst p qs
keys-IsFirst log [] p h k = tt
keys-IsFirst log (q ∷ qs) p h k = (IsIn-differs log p q h k.0, keys-IsFirst log qs p h k.1)

-- What the store says of a submission only adds to the accepted shares.
with_accepted-Counted :
    (id n : Bytes) (o : SubmissionOutcome) (sv : Services) (log : List Share)
    → Counted sv log
    → Counted sv (with_accepted id n o log)
with_accepted-Counted id n unknown_job sv log c = c
with_accepted-Counted id n stale sv log c = c
with_accepted-Counted id n duplicate sv log c = c
with_accepted-Counted id n (accepted job) sv log c =
    let few = c.fewer in
    record {
      fewer = omega (arith, few);
      known = IsIn-more (id, map to_lower n) log _ c.known;
      different = c.different;
    }

module _ {F : Type 0} (fl : Floating F) (lib : Library) (conn : Connection F) where
  with_credit-Counted :
      (ch : Chance F) (addr : ℕ) (p : SubmitParams) (forwarded : Bool) (s : Session F)
      (sv : Services) (log : List Share)
      → IsFirst (p.job_id, map to_lower p.nonce) log
      → Counted sv log
      → Counted
          (with_credit fl lib conn ch addr p forwarded s sv)
          ((p.job_id, map to_lower p.nonce) ∷ log)
  with_credit-Counted ch addr p true s sv log first c =
      let few = c.fewer in
      record {
        fewer = omega (arith, few);
        known = (inl refl, IsIn-more _ log _ c.known);
        different = (keys-IsFirst log (keys sv.submitted) _ first c.known, c.different);
      }
  with_credit-Counted ch addr p false s sv log first c =
      let few = c.fewer in
      record {
        fewer = omega (arith, few);
        known = IsIn-more _ log _ c.known;
        different = c.different;
      }

  Submits-Counted :
      (ch : Chance F) (id addr : ℕ) (p : SubmitParams) (s : Session F) (sv after : Services)
      (o : SubmissionOutcome) (log : List Share)
      → AllDifferent (with_accepted p.job_id p.nonce o log)
      → Submits fl lib conn ch id addr p s sv o after
      → Counted sv log
      → Counted after (with_accepted p.job_id p.nonce o log)
  Submits-Counted ch id addr p s sv after o log d (inl e) c =
      subst (λ x. Counted x (with_accepted p.job_id p.nonce o log)) (sym e)
        (with_accepted-Counted p.job_id p.nonce o sv log c)
  Submits-Counted ch id addr p s sv after o log d (inr (job, forwarded, taken, _, e)) c =
      let first = subst (λ x. AllDifferent (with_accepted p.job_id p.nonce x log)) taken d in
      subst (λ x. Counted x (with_accepted p.job_id p.nonce o log)) (sym e)
        (subst
          (λ x.
            Counted (with_credit fl lib conn ch addr p forwarded s sv)
              (with_accepted p.job_id p.nonce x log))
          (sym taken) (with_credit-Counted ch addr p forwarded s sv log first.0 c))

  -- The accepted shares after a message, from what the store says of it.
  abbrev pub logged_checked :
      ℕ → SubmitParams → JobStore → List Share → Option (Option ℕ) → List Share
  logged_checked now p jobs log none = log
  logged_checked now p jobs log (some _) =
      with_accepted p.job_id p.nonce
        (record_submission p.job_id p.nonce conn.share_grace now jobs).0 log

  abbrev pub logged_submit : ℕ → JobStore → List Share → Option ℕ → Option SubmitParams → List Share
  logged_submit now jobs log none params = log
  logged_submit now jobs log (some addr) none = log
  logged_submit now jobs log (some addr) (some p) =
      logged_checked now p jobs log (nonce_high_byte p.nonce)

  abbrev pub logged : ℕ → JobStore → List Share → Option ℕ → Method → List Share
  logged now jobs log o (submit params) = logged_submit now jobs log o params
  logged now jobs log o (login _) = log
  logged now jobs log o keepalived = log
  logged now jobs log o other = log

  IsSound-same :
      (now : ℕ) (sv after : Services) (log : List Share)
      → after ≡ sv
      → IsSound conn.share_grace now sv log
      → IsSound conn.share_grace now after log
  IsSound-same now sv after log e h = subst (λ x. IsSound conn.share_grace now x log) (sym e) h

  jobs-Submits :
      (ch : Chance F) (id addr : ℕ) (p : SubmitParams) (s : Session F) (sv after : Services)
      (o : SubmissionOutcome)
      → Submits fl lib conn ch id addr p s sv o after
      → after.jobs ≡ sv.jobs
  jobs-Submits ch id addr p s sv after o (inl e) = ap (λ (x : Services). x.jobs) e
  jobs-Submits ch id addr p s sv after o (inr (_, _, _, _, e)) = ap (λ (x : Services). x.jobs) e

  submit_checked-IsSound :
      (ch : Chance F) (id addr : ℕ) (p : SubmitParams) (s : Session F) (sv : Services)
      (log : List Share) (o : Option (Option ℕ))
      → IsSound conn.share_grace ch.now sv log
      → IsSound conn.share_grace ch.now
          (submit_checked fl lib conn ch id addr p sv s o).services
          (logged_checked ch.now p sv.jobs log o)
  submit_checked-IsSound ch id addr p s sv log none h = h
  submit_checked-IsSound ch id addr p s sv log (some b) h =
      let r = recorded fl lib conn ch id addr p s sv in
      let after = (submit_checked fl lib conn ch id addr p sv s (some b)).services in
      let run = submits p.job_id p.nonce ch.now sv.jobs log h.run in
      let eff = on_outcome-Submits fl lib conn ch id addr p s r.1 r.0 in
      let c = h.counted in
      record {
        run =
            subst (λ j. Run conn.share_grace ch.now j (with_accepted p.job_id p.nonce r.0 log))
              (sym (jobs-Submits ch id addr p s r.1 after r.0 eff)) run;
        counted =
            Submits-Counted ch id addr p s r.1 after r.0 log
              (accepted_once conn.share_grace ch.now _ _ run) eff
              (record { fewer = c.fewer; known = c.known; different = c.different });
      }

  handle_submit-IsSound :
      (ch : Chance F) (id : ℕ) (s : Session F) (sv : Services) (log : List Share) (o : Option ℕ)
      (params : Option SubmitParams)
      → IsSound conn.share_grace ch.now sv log
      → IsSound conn.share_grace ch.now
          (handle_submit fl lib conn ch id sv s o params).services
          (logged ch.now sv.jobs log o (submit params))
  unfolding submit_share
  handle_submit-IsSound ch id s sv log none params h =
      IsSound-same ch.now sv _ log (services-write_line fl lib conn ch _ _ sv s) h
  handle_submit-IsSound ch id s sv log (some addr) none h = h
  handle_submit-IsSound ch id s sv log (some addr) (some p) h =
      submit_checked-IsSound ch id addr p s sv log (nonce_high_byte p.nonce) h

  dispatch-IsSound :
      (ch : Chance F) (id : ℕ) (s : Session F) (sv : Services) (log : List Share) (m : Method)
      → IsSound conn.share_grace ch.now sv log
      → IsSound conn.share_grace ch.now
          (dispatch fl lib conn ch id sv s m).services
          (logged ch.now sv.jobs log s.miner m)
  dispatch-IsSound ch id s sv log (login text) h =
      IsSound-same ch.now sv _ log (services-handle_login fl lib conn ch id sv s text) h
  dispatch-IsSound ch id s sv log (submit params) h =
      handle_submit-IsSound ch id s sv log s.miner params h
  dispatch-IsSound ch id s sv log keepalived h =
      IsSound-same ch.now sv _ log (services-write_line fl lib conn ch _ _ sv s) h
  dispatch-IsSound ch id s sv log other h = h

  arm-IsSound :
      (now : ℕ) (sv : Services) (s : Session F) (log : List Share) (b : Bool) (o : Option ℕ)
      → IsSound conn.share_grace now sv log
      → IsSound conn.share_grace now (arm fl sv s b o).0 log
  arm-IsSound now sv s log false none h = h
  arm-IsSound now sv s log false (some a) h =
      let c = h.counted in
      record {
        run = h.run;
        counted = record { fewer = c.fewer; known = c.known; different = c.different };
      }
  arm-IsSound now sv s log true o h = h

  after_request-IsSound :
      (now : ℕ) (flow : Flow) (sv : Services) (s : Session F) (log : List Share)
      → IsSound conn.share_grace now sv log
      → IsSound conn.share_grace now (after_request fl flow sv s).services log
  after_request-IsSound now failed sv s log h = h
  after_request-IsSound now panicked sv s log h = h
  after_request-IsSound now keep_open sv s log h = arm-IsSound now sv s log s.guard s.miner h
  after_request-IsSound now close sv s log h = arm-IsSound now sv s log s.guard s.miner h

  abbrev pub logged_event : ℕ → JobStore → List Share → Option ℕ → Event → List Share
  logged_event now jobs log o (request req) = logged now jobs log o req.method
  logged_event now jobs log o (new_job _) = log
  logged_event now jobs log o bad_json = log
  logged_event now jobs log o ended = log
  logged_event now jobs log o broken = log

  pub react-IsSound :
      (ch : Chance F) (e : Event) (sv : Services) (s : Session F) (log : List Share)
      → IsSound conn.share_grace ch.now sv log
      → IsSound conn.share_grace ch.now
          (react fl lib conn ch e sv s).services
          (logged_event ch.now sv.jobs log s.miner e)
  unfolding react handle_request
  react-IsSound ch (request req) sv s log h =
      let r = handle_request fl lib conn ch req sv s in
      after_request-IsSound ch.now r.flow r.services r.session _
        (dispatch-IsSound ch req.id s sv log req.method h)
  react-IsSound ch (new_job job) sv s log h =
      IsSound-same ch.now sv _ log (services-push_job fl lib conn ch job sv s) h
  react-IsSound ch bad_json sv s log h = h
  react-IsSound ch ended sv s log h = h
  react-IsSound ch broken sv s log h = h

module _ {F : Type 0} (fl : Floating F) (lib : Library) (grace : ℕ) where
  -- A history of the proxy under one grace period, with the time and the accepted shares: the upstream
  -- publishes jobs, and any connection, in any state, takes any event.
  pub data History : ℕ → Services → List Share → Type 0 where
    starts :
        (now live : ℕ)
        → History now (record { jobs = []; credited = []; submitted = []; live = live }) []
    passes :
        (d now : ℕ) (sv : Services) (log : List Share)
        → History now sv log
        → History (now + d) sv log
    announces :
        (job : UpstreamJob) (now : ℕ) (sv : Services) (log : List Share)
        → IsUnissued job.job_id sv.jobs
        → All (λ p. bytes_eq p.0 job.job_id ≡ false) log
        → Grows (height_of (current sv.jobs)) job.height
        → History now sv log
        → History now (record sv { jobs = publish now job sv.jobs }) log
    takes :
        (conn : Connection F) (ch : Chance F) (e : Event) (s : Session F) (now : ℕ) (sv : Services)
        (log : List Share)
        → conn.share_grace ≡ grace
        → ch.now ≡ now
        → History now sv log
        → History now
            (react fl lib conn ch e sv s).services
            (logged_event fl lib conn now sv.jobs log s.miner e)

  History-IsSound :
      (now : ℕ) (sv : Services) (log : List Share) → History now sv log → IsSound grace now sv log
  History-IsSound now _ _ (starts _ live) = record {
    run = begins now;
    counted = record { fewer = omega arith; known = tt; different = tt };
  }
  History-IsSound _ sv log (passes d now _ _ h) =
      let i = History-IsSound now sv log h in
      record { run = waits d now sv.jobs log i.run; counted = i.counted }
  History-IsSound now _ log (announces job _ sv _ u new g h) =
      let i = History-IsSound now sv log h in
      let c = i.counted in
      record {
        run = publishes job now sv.jobs log u new g i.run;
        counted = record { fewer = c.fewer; known = c.known; different = c.different };
      }
  History-IsSound now _ _ (takes conn ch e s _ sv log p q h) =
      let i = History-IsSound now sv log h in
      let after = react fl lib conn ch e sv s in
      let j = react-IsSound fl lib conn ch e sv s log (
        subst (λ g. IsSound g ch.now sv log) (sym p)
          (subst (λ n. IsSound grace n sv log) (sym q) i)) in
      subst (λ g. IsSound g now after.services (logged_event fl lib conn now sv.jobs log s.miner e))
        p
        (subst
          (λ n.
            IsSound conn.share_grace n after.services
              (logged_event fl lib conn n sv.jobs log s.miner e))
          q j)

  -- However the messages of any number of sessions interleave with each other, with new jobs and with
  -- the passing of time: no share is handed to the upstream twice, for the same job and the same
  -- nonce, upper and lower case taken as equal; and no more shares are credited than were accepted,
  -- which are all different. The sessions have one grace period, job ids are not used again, and
  -- heights do not fall.
  pub credited_once :
      (now : ℕ) (sv : Services) (log : List Share)
      → History now sv log
      → AllDifferent log × (length sv.credited ≤ length log) × AllDifferent (keys sv.submitted)
  credited_once now sv log h =
      let i = History-IsSound now sv log h in
      (accepted_once grace now sv.jobs log i.run, i.counted.fewer, i.counted.different)
