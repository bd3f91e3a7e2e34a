-- ===== src/StratumProxy/Session/Serving.antt =====
-- What a session of crates/stratum-proxy/src/session.rs is told of a job, and what its shares are
-- judged at.
use cr_faucet.Common.{
  ℕ, ◌≡◌, ◌≤◌, true, false, none, some, Bytes, refl, ap, sym, ◌∙◌, inl, inr, Option-cases, length,
  [], arith,
}
use cr_faucet.PoolCore.Stratum.{diff_to_target_hex}
use cr_faucet.StratumProxy.Jobs.{UpstreamJob}
use cr_faucet.StratumProxy.Vardiff.{Floating, Vardiff, serve}
use cr_faucet.StratumProxy.Session.{note_advertised, advertised_cap, is_noted, stamp_worker_byte}
use cr_faucet.StratumProxy.Session.Advertised.{difficulty_kept, note_all}
use cr_faucet.StratumProxy.Session.Parts.{JobJson, Session, Connection, Library}
use cr_faucet.StratumProxy.Session.Handler.{advertise, job_to_json, serve_job, check_diff, or_floor}

pair_inj : {A B : Type 0} {p q : A × B} → some p ≡ some q → (p.0 ≡ q.0) × (p.1 ≡ q.1)
pair_inj e = (cc, cc)

module _ {F : Type 0} (fl : Floating F) (lib : Library) (conn : Connection F) (now : ℕ)
    (job : UpstreamJob) (s : Session F) where
  -- The session that has served a job at a difficulty, and the controller that gave it.
  abbrev pub after_serving : ℕ → Vardiff F → Session F
  after_serving d v = record s {
    vardiff = v;
    advertised = note_advertised job.job_id d s.advertised;
  }

  abbrev pub json_of : ℕ → Bytes → JobJson
  json_of d blob = record {
    id = conn.session_id;
    job_id = job.job_id;
    blob = blob;
    seed_hash = job.seed_hex;
    target = diff_to_target_hex lib.encode d;
    height = job.height;
  }

  pub serve_job-runs :
      (d : ℕ) (v : Vardiff F) (blob : Bytes)
      → serve fl now job.upstream_diff s.vardiff ≡ some (d, v)
      → stamp_worker_byte job.blob_hex conn.worker_byte ≡ some blob
      → serve_job fl lib conn now job s ≡ some (json_of d blob, after_serving d v)
  unfolding serve_job advertise job_to_json
  serve_job-runs d v blob e k = rw (e, k) refl

  serve_job-panics :
      serve fl now job.upstream_diff s.vardiff ≡ none → serve_job fl lib conn now job s ≡ none
  unfolding serve_job advertise
  serve_job-panics e = rw e refl

  stamp-panics :
      (d : ℕ) (v : Vardiff F)
      → serve fl now job.upstream_diff s.vardiff ≡ some (d, v)
      → stamp_worker_byte job.blob_hex conn.worker_byte ≡ none
      → serve_job fl lib conn now job s ≡ none
  unfolding serve_job advertise job_to_json
  stamp-panics d v e k = rw (e, k) refl

  -- How a job can be served.
  pub record IsServed (json : JobJson) (s' : Session F) : Type 0 where
    pub d : ℕ
    pub v : Vardiff F
    pub blob : Bytes
    pub asked : serve fl now job.upstream_diff s.vardiff ≡ some (d, v)
    pub stamped : stamp_worker_byte job.blob_hex conn.worker_byte ≡ some blob
    pub told : json ≡ json_of d blob
    pub kept : s' ≡ after_serving d v

  pub serve_job-IsServed :
      (json : JobJson) (s' : Session F)
      → serve_job fl lib conn now job s ≡ some (json, s')
      → IsServed json s'
  serve_job-IsServed json s' e = elim (Option-cases (serve fl now job.upstream_diff s.vardiff)) [
    | inl q ↦ let p = serve_job-panics q in cc
    | inr ((d, v), q) ↦ elim (Option-cases (stamp_worker_byte job.blob_hex conn.worker_byte)) [
      | inl k ↦ let p = stamp-panics d v q k in cc
      | inr (blob, k) ↦
          let p = pair_inj (sym e ∙ serve_job-runs d v blob q k) in
          record { d = d; v = v; blob = blob; asked = q; stamped = k; told = p.0; kept = p.1 }
    ]
  ]

  first_check :
      (d : ℕ) (v : Vardiff F)
      → length s.advertised ≤ advertised_cap
      → is_noted job.job_id s.advertised ≡ false
      → check_diff fl lib conn job.job_id (after_serving d v) ≡ d
  unfolding check_diff note_all
  first_check d v small new =
      ap (or_floor fl lib conn v.min)
        (difficulty_kept job.job_id d [] s.advertised small new (omega arith))

  note_again :
      (d : ℕ)
      → is_noted job.job_id s.advertised ≡ true
      → note_advertised job.job_id d s.advertised ≡ s.advertised
  unfolding note_advertised
  note_again d old = rw old refl

  -- The miner is sent the target of the difficulty that the controller gives at this boundary, which is
  -- the controller's state from then on. When a job is served for the first time, its shares are judged at that very
  -- difficulty, and the blob that was sent has the worker byte of the connection. When
  -- it is served again, what shares are judged at
  -- stays as it was. The ring is within its cap.
  pub serve_promise :
      (json : JobJson) (s' : Session F)
      → length s.advertised ≤ advertised_cap
      → serve_job fl lib conn now job s ≡ some (json, s')
      → (d : ℕ) × (serve fl now job.upstream_diff s.vardiff ≡ some (d, s'.vardiff))
        × (json.target ≡ diff_to_target_hex lib.encode d)
        × (stamp_worker_byte job.blob_hex conn.worker_byte ≡ some json.blob)
        × (is_noted job.job_id s.advertised ≡ false → check_diff fl lib conn job.job_id s' ≡ d)
        × (is_noted job.job_id s.advertised ≡ true → s'.advertised ≡ s.advertised)
  serve_promise json s' small e =
      let i = serve_job-IsServed json s' e in
      (
        i.d,
        i.asked ∙ ap (λ v. some (i.d, v)) (sym (ap (λ (x : Session F). x.vardiff) i.kept)),
        ap (λ (j : JobJson). j.target) i.told,
        i.stamped ∙ ap some (sym (ap (λ (j : JobJson). j.blob) i.told)),
        λ new. ap (check_diff fl lib conn job.job_id) i.kept ∙ first_check i.d i.v small new,
        λ old. ap (λ (x : Session F). x.advertised) i.kept ∙ note_again i.d old,
      )
