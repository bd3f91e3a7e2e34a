-- ===== src/StratumProxy/Session/Parts.antt =====
-- What the sessions of crates/stratum-proxy/src/session.rs keep, share and send, and the requests and
-- responses of crates/stratum-proxy/src/protocol.rs.
use cr_faucet.Common.{ℕ, Bool, Option, List, Bytes}
use cr_faucet.Common.Int.{ℤ}
use cr_faucet.StratumProxy.Jobs.{JobStore}
use cr_faucet.StratumProxy.Session.{Advertised}
use cr_faucet.StratumProxy.Vardiff.{Vardiff}

-- The parameters of a request; `none` stands for parameters that do not decode.
pub record SubmitParams : Type 0 where
  pub job_id : Bytes
  pub nonce : Bytes
  pub result : Bytes

pub data Method : Type 0 where
  login : Option Bytes → Method
  submit : Option SubmitParams → Method
  keepalived other : Method

-- An id is only sent back; a number stands for it.
pub record Request : Type 0 where
  pub id : ℕ
  pub method : Method

pub record JobJson : Type 0 where
  pub id : Bytes
  pub job_id : Bytes
  pub blob : Bytes
  pub seed_hash : Bytes
  pub target : Bytes
  pub height : Option ℕ

pub data Answer : Type 0 where
  logged_in : Bytes → Option JobJson → Answer
  status_ok status_keepalived : Answer
  error : ℤ → Answer

-- What is written to the connection: a response, or the notification of a job.
pub data Message : Type 0 where
  response : ℕ → Answer → Message
  notification : JobJson → Message

pub record ShareAccepted : Type 0 where
  pub miner : ℕ
  pub job_id : Bytes
  pub difficulty : ℕ
  pub accepted_at : ℕ
  pub forwarded_upstream : Bool

pub record UpstreamSubmit : Type 0 where
  pub job_id : Bytes
  pub nonce_hex : Bytes
  pub result_hex : Bytes

-- What the sessions share: the jobs, the shares that were handed to the sink and to the upstream, and
-- the gauge of live sessions.
pub record Services : Type 0 where
  pub jobs : JobStore
  pub credited : List ShareAccepted
  pub submitted : List UpstreamSubmit
  pub live : ℕ

-- The state of one connection. `guard` is set once the session counts as live.
pub record Session (F : Type 0) : Type 0 where
  pub miner : Option ℕ
  pub vardiff : Vardiff F
  pub advertised : Advertised
  pub verified_count : ℕ
  pub guard : Bool
  pub written : List Message

pub record SampleConfig (F : Type 0) : Type 0 where
  pub warmup : ℕ
  pub sample_rate : F

-- What is fixed for a connection.
pub record Connection (F : Type 0) : Type 0 where
  pub session_id : Bytes
  pub worker_byte : ℕ
  pub sample_cfg : SampleConfig F
  pub share_grace : ℕ

-- What other code decides: the parsing of an address (with `trim`), hexadecimal texts, the hash of
-- the verifier.
pub record Library : Type 0 where
  pub parse_address : Bytes → Option ℕ
  pub encode : Bytes → Bytes
  pub decode : Bytes → Option Bytes
  pub hash : Bytes → Bytes → Option Bytes

-- What one message meets: the instants at which it is taken up and judged, the draw of `gen_bool`,
-- whether the verifier's task ends, and whether the connection takes the answer.
pub record Chance (F : Type 0) : Type 0 where
  pub now : ℕ
  pub judged_at : ℕ
  pub gen_bool : F → Bool
  pub joined : Bool
  pub delivered : Bool

-- How a message leaves the session. `failed` is an error of `handle_one`.
pub data Flow : Type 0 where
  keep_open close failed panicked : Flow

pub record Step (F : Type 0) : Type 0 where
  pub flow : Flow
  pub services : Services
  pub session : Session F
