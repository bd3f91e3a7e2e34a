-- ===== src/StratumProxy/Session/Credit.antt =====
-- When a session of crates/stratum-proxy/src/session.rs credits a share, and for what.
use cr_faucet.Common.{ℕ, ◌≡◌, Bool, Option, none, some, ◌∷◌, refl, ap, ◌⊎◌, inl, inr, if◌then◌else◌}
use cr_faucet.StratumProxy.Jobs.{UpstreamJob, record_submission, accepted}
use cr_faucet.StratumProxy.Vardiff.{Floating}
use cr_faucet.StratumProxy.Session.Parts.{
  SubmitParams, Method, login, submit, keepalived, other, Request, Services, Session, Connection,
  Library, Chance,
}
use cr_faucet.StratumProxy.Session.Effects.{
  Rests, Submits, recorded, submit_share-Submits, services-write_line, services-handle_login,
}
use cr_faucet.StratumProxy.Session.Handler.{
  should_verify, check_diff, input_of, handle_submit, dispatch, handle_request,
}

module _ {F : Type 0} (fl : Floating F) (lib : Library) (conn : Connection F) where
  -- What one credit is: who it is for, what it was asked and judged by, and what is handed on.
  pub record IsCredit (ch : Chance F) (sv : Services) (s : Session F) (m : Method)
      (after : Services) : Type 0 where
    pub addr : ℕ
    pub p : SubmitParams
    pub job : UpstreamJob
    pub did_verify : Bool
    pub forwarded : Bool
    pub logged_in : s.miner ≡ some addr
    pub asked : m ≡ submit (some p)
    pub fresh :
        (record_submission p.job_id p.nonce conn.share_grace ch.now sv.jobs).0 ≡ accepted job
    pub drawn : did_verify ≡ should_verify fl lib conn ch.gen_bool s.verified_count
    pub rests : Rests fl lib conn (input_of fl lib conn job p s) did_verify forwarded
    pub credited :
        after.credited
        ≡ record {
          miner = addr;
          job_id = p.job_id;
          difficulty = check_diff fl lib conn p.job_id s;
          accepted_at = ch.judged_at;
          forwarded_upstream = forwarded;
        }
          ∷ sv.credited
    pub submitted : after.submitted ≡ (
        if forwarded
        then record { job_id = p.job_id; nonce_hex = p.nonce; result_hex = p.result } ∷ sv.submitted
        else sv.submitted)

  -- Whether a message credits a share.
  abbrev pub CreditsAtMostOne : Chance F → Services → Session F → Method → Services → Type 0
  CreditsAtMostOne ch sv s m after =
      ((after.credited ≡ sv.credited) × (after.submitted ≡ sv.submitted)) ⊎ IsCredit ch sv s m after

  Submits-Credits :
      (ch : Chance F) (id addr : ℕ) (p : SubmitParams) (s : Session F) (sv after : Services)
      → s.miner ≡ some addr
      → (after ≡ sv)
        ⊎ Submits fl lib conn ch id addr p s
            (recorded fl lib conn ch id addr p s sv).1
            (recorded fl lib conn ch id addr p s sv).0
            after
      → CreditsAtMostOne ch sv s (submit (some p)) after
  Submits-Credits ch id addr p s sv after m (inl e) =
      inl (ap (λ (x : Services). x.credited) e, ap (λ (x : Services). x.submitted) e)
  Submits-Credits ch id addr p s sv after m (inr (inl e)) =
      inl (ap (λ (x : Services). x.credited) e, ap (λ (x : Services). x.submitted) e)
  Submits-Credits ch id addr p s sv after m (inr (inr (job, forwarded, o, rests, e))) =
      inr (record {
        addr = addr;
        p = p;
        job = job;
        did_verify = should_verify fl lib conn ch.gen_bool s.verified_count;
        forwarded = forwarded;
        logged_in = m;
        asked = refl;
        fresh = o;
        drawn = refl;
        rests = rests;
        credited = ap (λ (x : Services). x.credited) e;
        submitted = ap (λ (x : Services). x.submitted) e;
      })

  same_services :
      (ch : Chance F) (s : Session F) (m : Method) (sv after : Services)
      → after ≡ sv
      → CreditsAtMostOne ch sv s m after
  same_services ch s m sv after e =
      inl (ap (λ (x : Services). x.credited) e, ap (λ (x : Services). x.submitted) e)

  handle_submit-Credits :
      (ch : Chance F) (id : ℕ) (sv : Services) (s : Session F) (o : Option ℕ)
      (params : Option SubmitParams)
      → s.miner ≡ o
      → CreditsAtMostOne ch sv s
          (submit params)
          (handle_submit fl lib conn ch id sv s o params).services
  handle_submit-Credits ch id sv s none params e =
      same_services ch s (submit params) sv _ (services-write_line fl lib conn ch _ _ sv s)
  handle_submit-Credits ch id sv s (some addr) none e = inl (refl, refl)
  handle_submit-Credits ch id sv s (some addr) (some p) e =
      Submits-Credits ch id addr p s sv _ e (submit_share-Submits fl lib conn ch id addr p s sv)

  dispatch-Credits :
      (ch : Chance F) (id : ℕ) (sv : Services) (s : Session F) (m : Method)
      → CreditsAtMostOne ch sv s m (dispatch fl lib conn ch id sv s m).services
  dispatch-Credits ch id sv s (login text) =
      same_services ch s (login text) sv _ (services-handle_login fl lib conn ch id sv s text)
  dispatch-Credits ch id sv s (submit params) = handle_submit-Credits ch id sv s s.miner params refl
  dispatch-Credits ch id sv s keepalived =
      same_services ch s keepalived sv _ (services-write_line fl lib conn ch _ _ sv s)
  dispatch-Credits ch id sv s other = inl (refl, refl)

  -- Whatever a miner sends, it credits nothing and hands nothing to the upstream, or it is a
  -- submission of a miner that is logged in, which the job store has accepted as the first of its job
  -- and nonce; then one share is credited to that miner, at the difficulty that the job was
  -- advertised at, or the floor. The share rests on a hash that meets this difficulty, the verifier's
  -- own where the draw asks for it; and it is handed to the upstream exactly if it meets the upstream's.
  pub credit_sound :
      (ch : Chance F) (req : Request) (sv : Services) (s : Session F)
      → CreditsAtMostOne ch sv s req.method (handle_request fl lib conn ch req sv s).services
  unfolding handle_request
  credit_sound ch req sv s = dispatch-Credits ch req.id sv s req.method
