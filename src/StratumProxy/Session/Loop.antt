-- ===== src/StratumProxy/Session/Loop.antt =====
-- handle_one of crates/stratum-proxy/src/session.rs: what a connection starts with, one round of its
-- loop, and the guard that counts it. The reading of lines is left out: what a read gives is an event.
use cr_faucet.Common.{
  ℕ, ◌+◌, ◌-◌, ◌*◌, ◌/◌, ◌^◌, Bool, true, false, Option, none, some, List, [], ◌∷◌, min,
}
use cr_faucet.StratumProxy.Jobs.{UpstreamJob}
use cr_faucet.StratumProxy.Vardiff.{Floating, VardiffConfig, new}
use cr_faucet.StratumProxy.Session.Parts.{
  Request, Services, Session, Connection, Library, Chance, Flow, keep_open, close, failed, panicked,
  Step,
}
use cr_faucet.StratumProxy.Session.Handler.{stop, handle_request, push_job}

-- `ended` is a timeout, the end of the input, or a line above its limit.
pub data Event : Type 0 where
  request : Request → Event
  new_job : UpstreamJob → Event
  bad_json ended broken : Event

-- The settings of `StratumConfig` that a session reads when it starts.
pub record StratumConfig (F : Type 0) : Type 0 where
  pub min_share_difficulty : ℕ
  pub target_seconds_per_share : ℕ
  pub vardiff : VardiffConfig F

module _ {F : Type 0} (fl : Floating F) where
  -- `saturating_mul(2)` on a `u64`.
  unfoldable pub open_session : StratumConfig F → ℕ → Session F
  open_session cfg now = record {
    miner = none;
    vardiff =
        new fl cfg.min_share_difficulty (min (cfg.min_share_difficulty * 2) (2 ^ 64 - 1))
          ((2 ^ 64 - 1) / 2) cfg.target_seconds_per_share cfg.vardiff now;
    advertised = [];
    verified_count = 0;
    guard = false;
    written = [];
  }

  -- `SessionGuard::new` after the first login that went well.
  abbrev pub arm : Services → Session F → Bool → Option ℕ → Services × Session F
  arm sv s false (some _) = (record sv { live = sv.live + 1 }, record s { guard = true })
  arm sv s true _ = (sv, s)
  arm sv s false none = (sv, s)

  abbrev pub after_request : Flow → Services → Session F → Step F
  after_request failed sv s = record { flow = failed; services = sv; session = s }
  after_request panicked sv s = record { flow = panicked; services = sv; session = s }
  after_request keep_open sv s =
      let armed = arm sv s s.guard s.miner in
      record { flow = keep_open; services = armed.0; session = armed.1 }
  after_request close sv s =
      let armed = arm sv s s.guard s.miner in
      record { flow = close; services = armed.0; session = armed.1 }

  -- The guard is dropped however the session ends.
  unfoldable pub leave : Services → Session F → Services
  leave sv s = elim s.guard [ true ↦ record sv { live = sv.live - 1 } | false ↦ sv ]

module _ {F : Type 0} (fl : Floating F) (lib : Library) (conn : Connection F) where
  -- One round of the loop.
  unfoldable pub react : Chance F → Event → Services → Session F → Step F
  react ch (request req) sv s =
      let r = handle_request fl lib conn ch req sv s in after_request fl r.flow r.services r.session
  react ch (new_job job) sv s = push_job fl lib conn ch job sv s
  react ch bad_json sv s = stop fl lib conn keep_open sv s
  react ch ended sv s = stop fl lib conn close sv s
  react ch broken sv s = stop fl lib conn failed sv s

  abbrev pub if_open : Flow → Flow × Session F → Session F → Flow × Session F
  if_open keep_open rest s = rest
  if_open close rest s = (close, s)
  if_open failed rest s = (failed, s)
  if_open panicked rest s = (panicked, s)

  -- The loop, on what it is given: each event meets the services as the other sessions have left them.
  unfoldable pub run : List (Chance F × Event × Services) → Session F → Flow × Session F
  unfolding react
  run [] s = (keep_open, s)
  run ((ch, e, sv) ∷ es) s =
      let r = react ch e sv s in let rest = run es r.session in if_open r.flow rest r.session
