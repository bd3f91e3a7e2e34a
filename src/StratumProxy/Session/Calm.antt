-- ===== src/StratumProxy/Session/Calm.antt =====
-- No session of crates/stratum-proxy/src/session.rs panics on ASCII text.
use cr_faucet.Common.{
  ℕ, ◌≤◌, ◌≡◌, ◌≢◌, ◌+◌, Bool, true, false, Option, none, some, List, [], ◌∷◌, Bytes, length, All,
  refl, arith, sym, subst, inl, inr, Bool-cases, ltb,
}
use cr_faucet.StratumProxy.Jobs.{UpstreamJob, current}
use cr_faucet.StratumProxy.Vardiff.{Floating, Vardiff, serve}
use cr_faucet.StratumProxy.Vardiff.Bounds.{
  IsSane, Ordered, Served, serve_bounds, on_share-IsSane, Ordered-on_share, new-IsSane, new-Ordered,
}
use cr_faucet.StratumProxy.Session.{
  advertised_cap, stamp_worker_byte, nonce_hi_hex, nonce_high_byte,
}
use cr_faucet.StratumProxy.Session.Advertised.{length-note_advertised}
use cr_faucet.StratumProxy.Session.Nonce.{IsAscii, starts_char-drop}
use cr_faucet.StratumProxy.Session.Serving.{after_serving, serve_job-runs, serve_job-IsServed}
use cr_faucet.StratumProxy.Session.Parts.{
  SubmitParams, Services, Session, Connection, Library, Chance, Flow, keep_open, close, failed,
  panicked, Step,
}
use cr_faucet.StratumProxy.Session.Handler.{serve_job, handle_request}
use cr_faucet.StratumProxy.Session.Rule.{
  Rule, GoodMethod, AllFine, handle_request-Ends, push_job-Ends,
}
use cr_faucet.StratumProxy.Session.Loop.{
  Event, request, new_job, bad_json, ended, broken, StratumConfig, open_session, arm, after_request,
  react, run, if_open,
}

stamp_total :
    (blob : Bytes) (b : ℕ) → IsAscii blob → (out : Bytes) × (stamp_worker_byte blob b ≡ some out)
unfolding stamp_worker_byte
stamp_total blob b ascii = elim (Bool-cases (ltb (length blob) (nonce_hi_hex + 2))) [
  | inl q ↦ rw q (blob, refl)
  | inr q ↦
      rw
        (
          q,
          starts_char-drop nonce_hi_hex blob ascii,
          starts_char-drop (nonce_hi_hex + 2) blob ascii,
        )
        (_, refl)
]

nonce_high_byte-runs : (n : Bytes) → IsAscii n → nonce_high_byte n ≢ none
unfolding nonce_high_byte
nonce_high_byte-runs n ascii e = let k = starts_char-drop 6 n ascii in ground (arith, k, e)

module _ {F : Type 0} (fl : Floating F) (lib : Library) (conn : Connection F) where
  -- What holds of a session between two messages.
  pub record IsCalm (s : Session F) : Type 0 where
    pub sane : IsSane s.vardiff
    pub ordered : Ordered fl s.vardiff
    pub ring : length s.advertised ≤ advertised_cap

  Served-some :
      (d : ℕ) (v : Vardiff F) (o : Option (ℕ × Vardiff F))
      → Served fl d v o
      → (x : ℕ) × (w : Vardiff F) × (o ≡ some (x, w))
  Served-some d v none h = elim h [ ]
  Served-some d v (some (x, w)) h = (x, w, refl)

  Ordered-served :
      (v w : Vardiff F)
      → w.max_gain_factor ≡ v.max_gain_factor
      → w.max_drop_factor ≡ v.max_drop_factor
      → Ordered fl v
      → Ordered fl w
  Ordered-served v w g d o c = let h = o c in rw (g, d) h

  after_serving-IsCalm :
      (s : Session F) (now d : ℕ) (job : UpstreamJob) (v : Vardiff F)
      → IsCalm s
      → serve fl now job.upstream_diff s.vardiff ≡ some (d, v)
      → IsCalm (after_serving fl lib conn now job s d v)
  after_serving-IsCalm s now d job v c e =
      let (_, _, _, sane, same, _) =
        subst (Served fl job.upstream_diff s.vardiff) e
          (serve_bounds fl now job.upstream_diff s.vardiff c.sane c.ordered) in
      record {
        sane = sane;
        ordered = Ordered-served s.vardiff v same.3 same.4 c.ordered;
        ring = length-note_advertised job.job_id d s.advertised c.ring;
      }

  abbrev pub AsciiJob : UpstreamJob → Type 0
  AsciiJob job = IsAscii job.blob_hex

  abbrev pub AsciiNonce : SubmitParams → Type 0
  AsciiNonce p = IsAscii p.nonce

  serves :
      (s : Session F) (now : ℕ) (job : UpstreamJob)
      → IsCalm s
      → AsciiJob job
      → serve_job fl lib conn now job s ≢ none
  serves s now job c ascii e =
      let (d, v, p) =
        Served-some job.upstream_diff s.vardiff _
          (serve_bounds fl now job.upstream_diff s.vardiff c.sane c.ordered) in
      let (out, q) = stamp_total job.blob_hex conn.worker_byte ascii in
      let k = serve_job-runs fl lib conn now job s d v out p q in cc

  IsCalm-rule : Rule fl lib conn IsCalm (λ flow. flow ≢ panicked) AsciiJob AsciiNonce
  IsCalm-rule = record {
    wrote = λ s m c. record { sane = c.sane; ordered = c.ordered; ring = c.ring };
    entered = λ s a c. record { sane = c.sane; ordered = c.ordered; ring = c.ring };
    judged = λ s n c. record { sane = c.sane; ordered = c.ordered; ring = c.ring };
    shared = λ s t n c. record {
      sane = on_share-IsSane fl t s.vardiff c.sane;
      ordered = Ordered-on_share fl t s.vardiff c.ordered;
      ring = c.ring;
    };
    served = λ s s' now job json c e.
        let i = serve_job-IsServed fl lib conn now job s json s' e in
        subst IsCalm (sym i.kept) (after_serving-IsCalm s now i.d job i.v c i.asked);
    open_end = λ e. cc;
    close_end = λ e. cc;
    failed_end = λ e. cc;
    serve_end = λ s now job c ascii e. absurd (serves s now job c ascii e);
    nonce_end = λ p ascii e. absurd (nonce_high_byte-runs p.nonce ascii e);
  }

  arm-IsCalm :
      (sv : Services) (s : Session F) (b : Bool) (o : Option ℕ)
      → IsCalm s
      → IsCalm (arm fl sv s b o).1
  arm-IsCalm sv s false none c = c
  arm-IsCalm sv s false (some a) c = record { sane = c.sane; ordered = c.ordered; ring = c.ring }
  arm-IsCalm sv s true o c = c

  abbrev pub Calmly : Step F → Type 0
  Calmly r = IsCalm r.session × (r.flow ≢ panicked)

  after_request-Calmly :
      (flow : Flow) (sv : Services) (s : Session F)
      → IsCalm s
      → flow ≢ panicked
      → Calmly (after_request fl flow sv s)
  after_request-Calmly failed sv s c q = (c, λ e. cc)
  after_request-Calmly panicked sv s c q = absurd (q refl)
  after_request-Calmly keep_open sv s c q = (arm-IsCalm sv s s.guard s.miner c, λ e. cc)
  after_request-Calmly close sv s c q = (arm-IsCalm sv s s.guard s.miner c, λ e. cc)

  -- An event whose texts are ASCII, beside a current job whose blob is.
  abbrev pub IsAsciiEvent : Event → Services → Type 0
  IsAsciiEvent (request req) sv =
      AllFine AsciiJob (current sv.jobs) × GoodMethod AsciiNonce req.method
  IsAsciiEvent (new_job job) sv = AsciiJob job
  IsAsciiEvent bad_json sv = Unit
  IsAsciiEvent ended sv = Unit
  IsAsciiEvent broken sv = Unit

  react-Calmly :
      (ch : Chance F) (e : Event) (sv : Services) (s : Session F)
      → IsCalm s
      → IsAsciiEvent e sv
      → Calmly (react fl lib conn ch e sv s)
  unfolding react
  react-Calmly ch (request req) sv s c a =
      let r = handle_request fl lib conn ch req sv s in
      let (calm, flow) = handle_request-Ends fl lib conn IsCalm-rule ch req sv s c a.0 a.1 in
      after_request-Calmly r.flow r.services r.session calm flow
  react-Calmly ch (new_job job) sv s c a = push_job-Ends fl lib conn IsCalm-rule ch job sv s c a
  react-Calmly ch bad_json sv s c a = (c, λ e. cc)
  react-Calmly ch ended sv s c a = (c, λ e. cc)
  react-Calmly ch broken sv s c a = (c, λ e. cc)

  pub open_session-IsCalm :
      (cfg : StratumConfig F) (now : ℕ)
      → ((c : ℕ)
          → fl.round (fl.mul (fl.of_nat c) cfg.vardiff.max_drop_factor)
            ≤ fl.round (fl.mul (fl.of_nat c) cfg.vardiff.max_gain_factor))
      → IsCalm (open_session fl cfg now)
  unfolding open_session
  open_session-IsCalm cfg now o = record {
    sane = new-IsSane fl _ _ _ _ now cfg.vardiff;
    ordered = new-Ordered fl _ _ _ _ now cfg.vardiff o;
    ring = omega arith;
  }

  if_open-Calmly :
      (flow : Flow) (rest : Flow × Session F) (s : Session F)
      → flow ≢ panicked
      → rest.0 ≢ panicked
      → (if_open fl lib conn flow rest s).0 ≢ panicked
  if_open-Calmly keep_open rest s q r = r
  if_open-Calmly close rest s q r = λ e. cc
  if_open-Calmly failed rest s q r = λ e. cc
  if_open-Calmly panicked rest s q r = q

  run-Calmly :
      (es : List (Chance F × Event × Services)) (s : Session F)
      → IsCalm s
      → All (λ (x : Chance F × Event × Services). IsAsciiEvent x.1 x.2) es
      → (run fl lib conn es s).0 ≢ panicked
  unfolding run
  run-Calmly [] s c h = λ e. cc
  run-Calmly ((ch, e, sv) ∷ es) s c h =
      let (calm, flow) = react-Calmly ch e sv s c h.0 in
      let r = react fl lib conn ch e sv s in
      if_open-Calmly r.flow (run fl lib conn es r.session) r.session flow
        (run-Calmly es r.session calm h.1)

  -- A session that starts from the settings never panics, whatever it is sent and whatever the other
  -- sessions do: neither a clamp of the difficulty nor a cut of a text fails. The factors of the
  -- settings do not cross, and the texts are ASCII: the nonces that are submitted and the blobs that
  -- are served.
  pub never_panics :
      (cfg : StratumConfig F) (now : ℕ) (es : List (Chance F × Event × Services))
      → ((c : ℕ)
          → fl.round (fl.mul (fl.of_nat c) cfg.vardiff.max_drop_factor)
            ≤ fl.round (fl.mul (fl.of_nat c) cfg.vardiff.max_gain_factor))
      → All (λ (x : Chance F × Event × Services). IsAsciiEvent x.1 x.2) es
      → (run fl lib conn es (open_session fl cfg now)).0 ≢ panicked
  never_panics cfg now es o h =
      run-Calmly es (open_session fl cfg now) (open_session-IsCalm cfg now o) h
