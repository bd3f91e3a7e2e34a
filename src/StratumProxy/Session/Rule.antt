-- ===== src/StratumProxy/Session/Rule.antt =====
-- The rule that carries a predicate on a session through a message of
-- crates/stratum-proxy/src/session.rs, and another on how the message ends.
use cr_faucet.Common.{
  ℕ, ◌≡◌, Bool, true, false, Option, none, some, [], ◌∷◌, ◌++◌, Bytes, refl, inl, inr, Bool-cases,
  if◌then◌else◌, ◌&&◌, ◌==◌,
}
use cr_faucet.Common.Int.{ℤ}
use cr_faucet.StratumProxy.Jobs.{
  UpstreamJob, SubmissionOutcome, unknown_job, stale, duplicate, accepted, current,
}
use cr_faucet.StratumProxy.Share.{ShareOutcome, below_difficulty, invalid_hash, bad_blob}
use cr_faucet.StratumProxy.Vardiff.{Floating, on_share}
use cr_faucet.StratumProxy.Session.{nonce_high_byte}
use cr_faucet.StratumProxy.Session.Parts.{
  SubmitParams, Method, login, submit, keepalived, other, Request, JobJson, Message, Services,
  Session, Connection, Library, Chance, Flow, keep_open, close, failed, panicked, Step,
}
use cr_faucet.StratumProxy.Session.Handler.{
  write_line, login_job, greet, login_as, handle_login, should_verify, input_of, verdict,
  accept_share, reject_share, settle_share, judge_share, on_outcome, submit_checked, submit_share,
  handle_submit, dispatch, handle_request, push_to, pushed, push_job, serve_job,
}

-- The submission of a message, and the job of a store, if there is one.
abbrev pub GoodMethod : (SubmitParams → Type 0) → Method → Type 0
GoodMethod Good (login _) = Unit
GoodMethod Good (submit none) = Unit
GoodMethod Good (submit (some p)) = Good p
GoodMethod Good keepalived = Unit
GoodMethod Good other = Unit

abbrev pub AllFine : (UpstreamJob → Type 0) → Option UpstreamJob → Type 0
AllFine Fine none = Unit
AllFine Fine (some job) = Fine job

module _ {F : Type 0} (fl : Floating F) (lib : Library) (conn : Connection F) where
  -- `P` survives every change of a session, and `Q` holds of every end; `Fine` and `Good` say which
  -- jobs and submissions are expected.
  pub record Rule (P : Session F → Type 0) (Q : Flow → Type 0) (Fine : UpstreamJob → Type 0)
      (Good : SubmitParams → Type 0) : Type 0 where
    pub wrote :
        (s : Session F) (m : Message) → P s → P (record s { written = s.written ++ (m ∷ []) })
    pub entered : (s : Session F) (a : ℕ) → P s → P (record s { miner = some a })
    pub judged : (s : Session F) (n : ℕ) → P s → P (record s { verified_count = n })
    pub shared :
        (s : Session F) (t n : ℕ)
        → P s
        → P (record s { verified_count = n; vardiff = on_share fl t s.vardiff })
    pub served :
        (s s' : Session F) (now : ℕ) (job : UpstreamJob) (json : JobJson)
        → P s
        → serve_job fl lib conn now job s ≡ some (json, s')
        → P s'
    pub open_end : Q keep_open
    pub close_end : Q close
    pub failed_end : Q failed
    pub serve_end :
        (s : Session F) (now : ℕ) (job : UpstreamJob)
        → P s
        → Fine job
        → serve_job fl lib conn now job s ≡ none
        → Q panicked
    pub nonce_end : (p : SubmitParams) → Good p → nonce_high_byte p.nonce ≡ none → Q panicked

  module _ {P : Session F → Type 0} {Q : Flow → Type 0} {Fine : UpstreamJob → Type 0}
      {Good : SubmitParams → Type 0} (r : Rule P Q Fine Good) where
    abbrev pub Ends : Step F → Type 0
    Ends st = P st.session × Q st.flow

    write_line-Ends :
        (ch : Chance F) (m : Message) (flow : Flow) (sv : Services) (s : Session F)
        → Q flow
        → P s
        → Ends (write_line fl lib conn ch m flow sv s)
    unfolding write_line
    write_line-Ends ch m flow sv s q p = elim (Bool-cases ch.delivered) [
      | inl e ↦ rw e (r.wrote s m p, q)
      | inr e ↦ rw e (p, r.failed_end)
    ]

    accept_share-Ends :
        (ch : Chance F) (id : ℕ) (did forwarded : Bool) (addr : ℕ) (p : SubmitParams)
        (sv : Services) (s : Session F)
        → P s
        → Ends (accept_share fl lib conn ch id did forwarded addr p sv s)
    unfolding accept_share
    accept_share-Ends ch id did forwarded addr p sv s h =
        write_line-Ends ch _ keep_open _ _ r.open_end (r.shared s ch.judged_at _ h)

    kick_end : (kick : Bool) → Q (if kick then close else keep_open)
    kick_end true = r.close_end
    kick_end false = r.open_end

    reject_share-Ends :
        (ch : Chance F) (id : ℕ) (did kicked : Bool) (code : ℤ) (sv : Services) (s : Session F)
        → P s
        → Ends (reject_share fl lib conn ch id did kicked code sv s)
    unfolding reject_share
    reject_share-Ends ch id did kicked code sv s h =
        write_line-Ends ch _ _ sv _ (kick_end (did && (s.verified_count == 0) && kicked))
          (r.judged s 0 h)

    module _ (ch : Chance F) (id addr : ℕ) (p : SubmitParams) (s : Session F) (h : P s) where
      settle_share-Ends :
          (did : Bool) (sv : Services) (o : Option ShareOutcome)
          → Ends (settle_share fl lib conn ch id did addr p sv s o)
      settle_share-Ends did sv none = (h, r.failed_end)
      settle_share-Ends did sv (some (ShareOutcome.accepted forwarded)) =
          accept_share-Ends ch id did forwarded addr p sv s h
      settle_share-Ends did sv (some below_difficulty) = reject_share-Ends ch id did true _ sv s h
      settle_share-Ends did sv (some invalid_hash) = reject_share-Ends ch id did true _ sv s h
      settle_share-Ends did sv (some ShareOutcome.unknown_job) =
          reject_share-Ends ch id did false _ sv s h
      settle_share-Ends did sv (some bad_blob) = reject_share-Ends ch id did true _ sv s h

      on_outcome-Ends :
          (sv : Services) (o : SubmissionOutcome)
          → Ends (on_outcome fl lib conn ch id addr p sv s o)
      unfolding judge_share
      on_outcome-Ends sv unknown_job = write_line-Ends ch _ keep_open sv s r.open_end h
      on_outcome-Ends sv stale = write_line-Ends ch _ keep_open sv s r.open_end h
      on_outcome-Ends sv duplicate = write_line-Ends ch _ keep_open sv s r.open_end h
      on_outcome-Ends sv (accepted job) =
          let did = should_verify fl lib conn ch.gen_bool s.verified_count in
          settle_share-Ends did sv (verdict fl lib conn ch did (input_of fl lib conn job p s))

      submit_checked-Ends :
          (sv : Services) (o : Option (Option ℕ))
          → Good p
          → nonce_high_byte p.nonce ≡ o
          → Ends (submit_checked fl lib conn ch id addr p sv s o)
      submit_checked-Ends sv none g e = (h, r.nonce_end p g e)
      submit_checked-Ends sv (some _) g e = on_outcome-Ends _ _

    handle_submit-Ends :
        (ch : Chance F) (id : ℕ) (sv : Services) (s : Session F) (o : Option ℕ)
        (params : Option SubmitParams)
        → P s
        → GoodMethod Good (submit params)
        → Ends (handle_submit fl lib conn ch id sv s o params)
    unfolding submit_share
    handle_submit-Ends ch id sv s none params h g = write_line-Ends ch _ keep_open sv s r.open_end h
    handle_submit-Ends ch id sv s (some addr) none h g = (h, r.failed_end)
    handle_submit-Ends ch id sv s (some addr) (some p) h g =
        submit_checked-Ends ch id addr p s h sv (nonce_high_byte p.nonce) g refl

    served_Ends :
        (ch : Chance F) (id : ℕ) (sv : Services) (s : Session F) (job : UpstreamJob)
        (o : Option (JobJson × Session F))
        → P s
        → Fine job
        → serve_job fl lib conn ch.now job s ≡ o
        → Ends (greet fl lib conn ch id sv s (login_job fl lib conn ch.now (some job) s))
    served_Ends ch id sv s job none h f e = rw e (h, r.serve_end s ch.now job h f e)
    served_Ends ch id sv s job (some (json, s')) h f e =
        rw e (write_line-Ends ch _ keep_open sv s' r.open_end (r.served s s' ch.now job json h e))

    greet-Ends :
        (ch : Chance F) (id : ℕ) (sv : Services) (s : Session F) (o : Option UpstreamJob)
        → P s
        → AllFine Fine o
        → Ends (greet fl lib conn ch id sv s (login_job fl lib conn ch.now o s))
    greet-Ends ch id sv s none h f = write_line-Ends ch _ keep_open sv s r.open_end h
    greet-Ends ch id sv s (some job) h f =
        served_Ends ch id sv s job (serve_job fl lib conn ch.now job s) h f refl

    login_as-Ends :
        (ch : Chance F) (id : ℕ) (sv : Services) (s : Session F) (o : Option ℕ)
        → P s
        → AllFine Fine (current sv.jobs)
        → Ends (login_as fl lib conn ch id sv s o)
    login_as-Ends ch id sv s none h f = write_line-Ends ch _ keep_open sv s r.open_end h
    login_as-Ends ch id sv s (some a) h f =
        greet-Ends ch id sv (record s { miner = some a }) (current sv.jobs) (r.entered s a h) f

    handle_login-Ends :
        (ch : Chance F) (id : ℕ) (sv : Services) (s : Session F) (text : Option Bytes)
        → P s
        → AllFine Fine (current sv.jobs)
        → Ends (handle_login fl lib conn ch id sv s text)
    unfolding handle_login
    handle_login-Ends ch id sv s none h f = (h, r.failed_end)
    handle_login-Ends ch id sv s (some text) h f =
        login_as-Ends ch id sv s (lib.parse_address text) h f

    dispatch-Ends :
        (ch : Chance F) (id : ℕ) (sv : Services) (s : Session F) (m : Method)
        → P s
        → AllFine Fine (current sv.jobs)
        → GoodMethod Good m
        → Ends (dispatch fl lib conn ch id sv s m)
    dispatch-Ends ch id sv s (login text) h f g = handle_login-Ends ch id sv s text h f
    dispatch-Ends ch id sv s (submit params) h f g =
        handle_submit-Ends ch id sv s s.miner params h g
    dispatch-Ends ch id sv s keepalived h f g = write_line-Ends ch _ keep_open sv s r.open_end h
    dispatch-Ends ch id sv s other h f g = (h, r.open_end)

    pub handle_request-Ends :
        (ch : Chance F) (req : Request) (sv : Services) (s : Session F)
        → P s
        → AllFine Fine (current sv.jobs)
        → GoodMethod Good req.method
        → Ends (handle_request fl lib conn ch req sv s)
    unfolding handle_request
    handle_request-Ends ch req sv s h f g = dispatch-Ends ch req.id sv s req.method h f g

    pushed-Ends :
        (ch : Chance F) (job : UpstreamJob) (sv : Services) (s : Session F)
        (o : Option (JobJson × Session F))
        → P s
        → Fine job
        → serve_job fl lib conn ch.now job s ≡ o
        → Ends (pushed fl lib conn ch sv s o)
    pushed-Ends ch job sv s none h f e = (h, r.serve_end s ch.now job h f e)
    pushed-Ends ch job sv s (some (json, s')) h f e =
        write_line-Ends ch _ keep_open sv s' r.open_end (r.served s s' ch.now job json h e)

    push_to-Ends :
        (ch : Chance F) (job : UpstreamJob) (sv : Services) (s : Session F) (o : Option ℕ)
        → P s
        → Fine job
        → Ends (push_to fl lib conn ch job sv s o)
    push_to-Ends ch job sv s none h f = (h, r.open_end)
    push_to-Ends ch job sv s (some _) h f =
        pushed-Ends ch job sv s (serve_job fl lib conn ch.now job s) h f refl

    pub push_job-Ends :
        (ch : Chance F) (job : UpstreamJob) (sv : Services) (s : Session F)
        → P s
        → Fine job
        → Ends (push_job fl lib conn ch job sv s)
    unfolding push_job
    push_job-Ends ch job sv s h f = push_to-Ends ch job sv s s.miner h f
