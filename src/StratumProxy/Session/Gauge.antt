-- ===== src/StratumProxy/Session/Gauge.antt =====
-- The gauge of live sessions of crates/stratum-proxy/src/session.rs: SessionGuard counts each session
-- that has logged in once, until it ends.
use cr_faucet.Common.{
  ℕ, ◌+◌, ◌-◌, ◌≡◌, ◌≢◌, Bool, true, false, Option, none, some, List, [], ◌∷◌, ◌++◌, refl, arith,
  ap, sym, ◌∙◌, inl, inr, ◌⊎◌, Bool-cases,
}
use cr_faucet.StratumProxy.Jobs.{UpstreamJob, publish}
use cr_faucet.StratumProxy.Vardiff.{Floating}
use cr_faucet.StratumProxy.Session.{nonce_high_byte}
use cr_faucet.StratumProxy.Session.Parts.{
  SubmitParams, Method, login, submit, keepalived, other, Request, Services, Session, Connection,
  Library, Chance, Flow, keep_open, close, failed, panicked,
}
use cr_faucet.StratumProxy.Session.Handler.{
  submit_share, handle_submit, dispatch, handle_request, push_job,
}
use cr_faucet.StratumProxy.Session.Effects.{
  Submits, recorded, submit_checked-Submits, services-write_line, services-handle_login,
  services-push_job,
}
use cr_faucet.StratumProxy.Session.Rule.{
  Rule, GoodMethod, AllFine, handle_request-Ends, push_job-Ends,
}
use cr_faucet.StratumProxy.Session.Serving.{serve_job-IsServed}
use cr_faucet.StratumProxy.Session.Loop.{
  Event, request, new_job, bad_json, ended, broken, StratumConfig, open_session, arm, after_request,
  leave, react,
}

abbrev pub one : Bool → ℕ
one true = 1
one false = 0

-- How many of the open sessions have a guard.
abbrev pub guarded : {F : Type 0} → List (Session F) → ℕ
guarded [] = 0
guarded (s ∷ l) = one s.guard + guarded l

guarded-append : {F : Type 0} (l r : List (Session F)) → guarded (l ++ r) ≡ guarded l + guarded r
guarded-append [] r = omega arith
guarded-append (s ∷ l) r = omega (arith, guarded-append l r)

module _ {F : Type 0} (fl : Floating F) (lib : Library) (conn : Connection F) where
  guard_rule : (b : Bool) → Rule fl lib conn (λ s. s.guard ≡ b) (λ _. Unit) (λ _. Unit) (λ _. Unit)
  guard_rule b = record {
    wrote = λ s m e. e;
    entered = λ s a e. e;
    judged = λ s n e. e;
    shared = λ s t n e. e;
    served = λ s s' now job json e k.
        ap (λ (x : Session F). x.guard) (serve_job-IsServed fl lib conn now job s json s' k).kept
        ∙ e;
    open_end = tt;
    close_end = tt;
    failed_end = tt;
    serve_end = λ s now job e f k. tt;
    nonce_end = λ p g k. tt;
  }

  any_method : (m : Method) → GoodMethod (λ _. Unit) m
  any_method (login _) = tt
  any_method (submit none) = tt
  any_method (submit (some p)) = tt
  any_method keepalived = tt
  any_method other = tt

  any_job : (o : Option UpstreamJob) → AllFine (λ _. Unit) o
  any_job none = tt
  any_job (some job) = tt

  guard-handle_request :
      (ch : Chance F) (req : Request) (sv : Services) (s : Session F)
      → (handle_request fl lib conn ch req sv s).session.guard ≡ s.guard
  guard-handle_request ch req sv s =
      (handle_request-Ends fl lib conn (guard_rule s.guard) ch req sv s refl (any_job _)
        (any_method req.method)).0

  guard-push_job :
      (ch : Chance F) (job : UpstreamJob) (sv : Services) (s : Session F)
      → (push_job fl lib conn ch job sv s).session.guard ≡ s.guard
  guard-push_job ch job sv s =
      (push_job-Ends fl lib conn (guard_rule s.guard) ch job sv s refl tt).0

  same_live : {sv after : Services} → after ≡ sv → after.live ≡ sv.live
  same_live e = ap (λ (x : Services). x.live) e

  live-Submits :
      (ch : Chance F) (id addr : ℕ) (p : SubmitParams) (s : Session F) (sv after : Services)
      → (after ≡ sv)
        ⊎ Submits fl lib conn ch id addr p s
            (recorded fl lib conn ch id addr p s sv).1
            (recorded fl lib conn ch id addr p s sv).0
            after
      → after.live ≡ sv.live
  live-Submits ch id addr p s sv after (inl e) = same_live e
  live-Submits ch id addr p s sv after (inr (inl e)) = ap (λ (x : Services). x.live) e
  live-Submits ch id addr p s sv after (inr (inr (_, _, _, _, e))) = ap (λ (x : Services). x.live) e

  live-handle_submit :
      (ch : Chance F) (id : ℕ) (sv : Services) (s : Session F) (o : Option ℕ)
      (params : Option SubmitParams)
      → (handle_submit fl lib conn ch id sv s o params).services.live ≡ sv.live
  unfolding submit_share
  live-handle_submit ch id sv s none params =
      same_live (services-write_line fl lib conn ch _ _ sv s)
  live-handle_submit ch id sv s (some addr) none = refl
  live-handle_submit ch id sv s (some addr) (some p) =
      live-Submits ch id addr p s sv _
        (submit_checked-Submits fl lib conn ch id addr p s sv (nonce_high_byte p.nonce))

  live-dispatch :
      (ch : Chance F) (id : ℕ) (sv : Services) (s : Session F) (m : Method)
      → (dispatch fl lib conn ch id sv s m).services.live ≡ sv.live
  live-dispatch ch id sv s (login text) =
      same_live (services-handle_login fl lib conn ch id sv s text)
  live-dispatch ch id sv s (submit params) = live-handle_submit ch id sv s s.miner params
  live-dispatch ch id sv s keepalived = same_live (services-write_line fl lib conn ch _ _ sv s)
  live-dispatch ch id sv s other = refl

  arm-live :
      (sv : Services) (s : Session F) (b : Bool) (o : Option ℕ)
      → s.guard ≡ b
      → (arm fl sv s b o).0.live + one b ≡ sv.live + one (arm fl sv s b o).1.guard
  arm-live sv s false none e = ap (λ b. sv.live + one b) (sym e)
  arm-live sv s false (some a) e = omega arith
  arm-live sv s true o e = ap (λ b. sv.live + one b) (sym e)

  after_request-live :
      (flow : Flow) (sv : Services) (s : Session F)
      → let r = after_request fl flow sv s in
        r.services.live + one s.guard ≡ sv.live + one r.session.guard
  after_request-live failed sv s = refl
  after_request-live panicked sv s = refl
  after_request-live keep_open sv s = arm-live sv s s.guard s.miner refl
  after_request-live close sv s = arm-live sv s s.guard s.miner refl

  -- The gauge moves with the guard of the session.
  react-live :
      (ch : Chance F) (e : Event) (sv : Services) (s : Session F)
      → let r = react fl lib conn ch e sv s in
        r.services.live + one s.guard ≡ sv.live + one r.session.guard
  unfolding react handle_request
  react-live ch (request req) sv s =
      let r = handle_request fl lib conn ch req sv s in
      let a = after_request-live r.flow r.services r.session in
      let b = ap one (guard-handle_request ch req sv s) in
      let c = live-dispatch ch req.id sv s req.method in omega (arith, a, b, c)
  react-live ch (new_job job) sv s =
      let b = ap one (guard-push_job ch job sv s) in
      let c = same_live (services-push_job fl lib conn ch job sv s) in omega (arith, b, c)
  react-live ch bad_json sv s = refl
  react-live ch ended sv s = refl
  react-live ch broken sv s = refl

module _ {F : Type 0} (fl : Floating F) where
  live-leave : (sv : Services) (s : Session F) → (leave fl sv s).live ≡ sv.live - one s.guard
  unfolding leave
  live-leave sv s = elim (Bool-cases s.guard) [ inl e ↦ rw e refl | inr e ↦ rw e (omega arith) ]

module _ {F : Type 0} (fl : Floating F) (lib : Library) where
  -- The proxy with its open sessions: connections open, jobs are published, and any open session takes
  -- any event, after which it stays or leaves.
  pub data Serving : Services → List (Session F) → Type 0 where
    starts : (sv : Services) → sv.live ≡ 0 → Serving sv []
    connects :
        (cfg : StratumConfig F) (now : ℕ) (sv : Services) (l : List (Session F))
        → Serving sv l
        → Serving sv (open_session fl cfg now ∷ l)
    announces :
        (job : UpstreamJob) (now : ℕ) (sv : Services) (l : List (Session F))
        → Serving sv l
        → Serving (record sv { jobs = publish now job sv.jobs }) l
    stays :
        (conn : Connection F) (ch : Chance F) (e : Event) (s : Session F)
        (pre post : List (Session F)) (sv : Services)
        → Serving sv (pre ++ (s ∷ post))
        → (react fl lib conn ch e sv s).flow ≡ keep_open
        → Serving
            (react fl lib conn ch e sv s).services
            (pre ++ ((react fl lib conn ch e sv s).session ∷ post))
    leaves :
        (conn : Connection F) (ch : Chance F) (e : Event) (s : Session F)
        (pre post : List (Session F)) (sv : Services)
        → Serving sv (pre ++ (s ∷ post))
        → (react fl lib conn ch e sv s).flow ≢ keep_open
        → Serving
            (leave fl (react fl lib conn ch e sv s).services (react fl lib conn ch e sv s).session)
            (pre ++ post)

  open_session-guard : (cfg : StratumConfig F) (now : ℕ) → (open_session fl cfg now).guard ≡ false
  unfolding open_session
  open_session-guard cfg now = refl

  -- However sessions open, log in, take messages and end, well or by an error, a timeout or a panic,
  -- the gauge of live sessions is the number of open sessions that are counted, so none leaks. The
  -- gauge starts at zero.
  pub gauge_exact : (sv : Services) (l : List (Session F)) → Serving sv l → sv.live ≡ guarded l
  gauge_exact sv _ (starts _ e) = e
  gauge_exact sv _ (connects cfg now _ l h) =
      let i = gauge_exact sv l h in
      let g = ap one (open_session-guard cfg now) in omega (arith, i, g)
  gauge_exact _ l (announces job now sv _ h) = gauge_exact sv l h
  gauge_exact _ _ (stays conn ch e s pre post sv h q) =
      let r = react fl lib conn ch e sv s in
      let i = gauge_exact sv (pre ++ (s ∷ post)) h in
      let a = guarded-append pre (s ∷ post) in
      let b = guarded-append pre (r.session ∷ post) in
      let m = react-live fl lib conn ch e sv s in omega (arith, i, a, b, m)
  gauge_exact _ _ (leaves conn ch e s pre post sv h q) =
      let r = react fl lib conn ch e sv s in
      let i = gauge_exact sv (pre ++ (s ∷ post)) h in
      let a = guarded-append pre (s ∷ post) in
      let b = guarded-append pre post in
      let m = react-live fl lib conn ch e sv s in
      let d = live-leave fl r.services r.session in omega (arith, i, a, b, m, d)
