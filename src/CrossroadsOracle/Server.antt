-- ===== src/CrossroadsOracle/Server.antt =====
-- crates/crossroads-oracle/src/server.rs: what the server reads of an oracle, keeps of it, and reports of a
-- block for it. The oracle's contract is a parameter; `none` is a call that fails.
pub mod Vetted
use cr_faucet.Common.{
  ℕ, ◌+◌, ◌-◌, ◌%◌, ◌<◌, Bool, true, false, not, Option, none, some, List, [], ◌∷◌, Bytes, ◌==◌,
  ltb, if◌then◌else◌, length, take,
}
use cr_faucet.Common.Dict.{Dict, lookup, insert}
use cr_faucet.Common.Results.{Result, ok, err, ◌>>=◌}
use cr_faucet.CrossroadsOracle.Source.{
  Refusal, Confirmed, Count, Block, BlockTag, Vote, word, fetch_confirmed,
}
use cr_faucet.CrossroadsOracle.Ssrf.{Url, IpAddr, Blocked, assert_public_url}

-- The answers of the oracle's contract.
pub record Contract : Type 0 where
  pub registry : ℕ
  pub expected_source_chain_id : ℕ
  pub min_confirmations : ℕ
  pub mandate_finalized : Bool
  pub source_rpc_urls : List Bytes
  pub source_rpc_quorum : ℕ

pub record OracleInfo : Type 0 where
  pub source_chain_id : ℕ
  pub min_confirmations : ℕ
  pub mandate_finalized : Bool
  pub rpc_urls : List Bytes
  pub quorum : ℕ

pub record BlockHashReport : Type 0 where
  pub source_chain_id : ℕ
  pub block_number : ℕ
  pub block_hash : Bytes
  pub required_confirmations : ℕ
  pub observed_confirmations : ℕ
  pub quorum_tip : ℕ
  pub observed_quorum : ℕ
  pub require_finalized : Bool
  pub finalized_block_number : ℕ
  pub expires_at : ℕ
  pub signer_epoch : ℕ

pub data Failure : Type 0 where
  unreadable other_registry few_urls : Failure
  source : Refusal → Failure

pub record Settings : Type 0 where
  pub registry : ℕ
  pub max_source_rpcs : ℕ
  pub report_ttl_secs : ℕ
  pub signer_epoch : ℕ

-- `try_into().unwrap_or(default)`
abbrev pub u64_or : ℕ → ℕ → ℕ
u64_or default n = if ltb n word then n else default

abbrev pub keep :
    ℕ → Dict OracleInfo → Result Failure OracleInfo → Result Failure OracleInfo × Dict OracleInfo
keep oracle cache (ok info) = (ok info, insert oracle info cache)
keep oracle cache (err e) = (err e, cache)

abbrev pub keep_safe : Result Blocked (Unit {0}) → Bytes → List Bytes → List Bytes
keep_safe (ok t) u safe = u ∷ safe
keep_safe (err e) u safe = safe

module _ (parse : Bytes → Option Url) (lookup_host : Bytes → ℕ → Option (List IpAddr)) where
  unfoldable pub safe_urls : List Bytes → List Bytes
  safe_urls [] = []
  safe_urls (u ∷ urls) = keep_safe (assert_public_url parse lookup_host u) u (safe_urls urls)

  abbrev pub enough : Contract → ℕ → List Bytes → Result Failure OracleInfo
  enough c quorum safe =
      if ltb (length safe) quorum
      then err few_urls
      else ok (record {
        source_chain_id = u64_or 0 c.expected_source_chain_id;
        min_confirmations = u64_or 0 c.min_confirmations;
        mandate_finalized = c.mandate_finalized;
        rpc_urls = safe;
        quorum = quorum;
      })

  unfoldable pub vet : Settings → Option Contract → Result Failure OracleInfo
  vet s none = err unreadable
  vet s (some c) =
      if c.registry == s.registry
      then enough c (u64_or (word - 1) c.source_rpc_quorum)
          (safe_urls (take s.max_source_rpcs c.source_rpc_urls))
      else err other_registry

  abbrev pub cached :
      Settings
      → Option Contract
      → ℕ
      → Dict OracleInfo
      → Option OracleInfo
      → Result Failure OracleInfo × Dict OracleInfo
  cached s contract oracle cache (some info) = (ok info, cache)
  cached s contract oracle cache none = keep oracle cache (vet s contract)

  unfoldable pub oracle_info :
      Settings → Option Contract → ℕ → Dict OracleInfo → Result Failure OracleInfo × Dict OracleInfo
  oracle_info s contract oracle cache = cached s contract oracle cache (lookup oracle cache)

abbrev pub report_of : Settings → ℕ → ℕ → OracleInfo → Confirmed → BlockHashReport
report_of s now block_number info c = record {
  source_chain_id = info.source_chain_id;
  block_number = block_number;
  block_hash = c.block_hash;
  required_confirmations = info.min_confirmations;
  observed_confirmations = c.observed_confirmations;
  quorum_tip = c.quorum_tip;
  observed_quorum = c.observed_quorum;
  require_finalized = info.mandate_finalized;
  finalized_block_number = c.finalized_block_number;
  expires_at = (now + s.report_ttl_secs) % word;
  signer_epoch = s.signer_epoch;
}

module _ (parse_hash : Bytes → Option Bytes) (order : List Count → List Count)
    (ask : Bytes → BlockTag → Option Block) where
  abbrev pub report_on :
      Settings → ℕ → ℕ → OracleInfo → Result Refusal Confirmed → Result Failure BlockHashReport
  report_on s now block_number info (ok c) = ok (report_of s now block_number info c)
  report_on s now block_number info (err e) = err (source e)

  -- `sign_for` up to the report that is signed.
  unfoldable pub report_for :
      Settings → ℕ → ℕ → Result Failure OracleInfo → Result Failure BlockHashReport
  report_for s now block_number (err e) = err e
  report_for s now block_number (ok info) = report_on s now block_number info (
      fetch_confirmed parse_hash order ask info.rpc_urls info.quorum block_number
        info.min_confirmations info.mandate_finalized)
