-- ===== src/StratumProxy/Share.antt =====
-- crates/stratum-proxy/src/share.rs, with the blob of crates/pool-core/src/stratum.rs and the difficulty
-- test of crates/randomx-verify/src/lib.rs. The decoding of hexadecimal texts and the RandomX hash
-- belong to libraries and are parameters.
pub mod Agreement
use cr_faucet.Common.{
  ℕ, ◌+◌, ◌*◌, ◌-◌, ◌/◌, ◌^◌, ◌==◌, ◌||◌, ltb, leb, Bool, true, false, not, Option, none, some,
  List, [], ◌∷◌, ◌++◌, Bytes, length, take, drop, if◌then◌else◌,
}
use cr_faucet.Common.Results.{Result, ok, err}
use cr_faucet.PoolCore.Stratum.{from_le_bytes}
use cr_faucet.StratumProxy.Jobs.{UpstreamJob}

pub data ShareOutcome : Type 0 where
  accepted : Bool → ShareOutcome
  below_difficulty invalid_hash unknown_job bad_blob : ShareOutcome

pub record VerifyInput : Type 0 where
  pub job : UpstreamJob
  pub session_difficulty : ℕ
  pub nonce_hex : Bytes
  pub claimed_result_hex : Bytes

pub data BlobError : Type 0 where
  too_short : ℕ → BlobError
  bad_hex bad_nonce_len : BlobError

pub data VerifyError : Type 0 where
  bad_nonce_hex randomx : VerifyError

abbrev pub nonce_offset : ℕ
nonce_offset = 39

abbrev pub nonce_len : ℕ
nonce_len = 4

-- The two tests on the lengths, and the four bytes in their place.
unfoldable pub put_nonce : Bytes → Bytes → Result BlobError Bytes
put_nonce blob nonce =
    if ltb (length blob) (nonce_offset + nonce_len)
    then err (too_short (length blob))
    else if length nonce == nonce_len
    then ok (take nonce_offset blob ++ (nonce ++ drop (nonce_offset + nonce_len) blob))
    else err bad_nonce_len

abbrev pub put_decoded : Option Bytes → Option Bytes → Result BlobError Bytes
put_decoded none _ = err bad_hex
put_decoded (some blob) none = err bad_hex
put_decoded (some blob) (some nonce) = put_nonce blob nonce

unfoldable pub meets_difficulty : Bytes → ℕ → Bool
unfolding from_le_bytes
meets_difficulty hash difficulty =
    let leading = from_le_bytes (take 8 (drop 24 hash)) in
    if difficulty == 0 then true else leading == 0 || leb leading ((2 ^ 64 - 1) / difficulty)

abbrev pub zeros : Bytes
zeros =
    0 ∷ 0 ∷ 0 ∷ 0 ∷ 0 ∷ 0 ∷ 0 ∷ 0 ∷ 0 ∷ 0 ∷ 0 ∷ 0 ∷ 0 ∷ 0 ∷ 0 ∷ 0 ∷ 0 ∷ 0 ∷ 0 ∷ 0 ∷ 0 ∷ 0 ∷ 0 ∷ 0
    ∷ 0 ∷ 0 ∷ 0 ∷ 0 ∷ 0 ∷ 0 ∷ 0 ∷ 0 ∷ []

-- The tests on a hash, whoever computed it.
unfoldable pub judge : VerifyInput → Bytes → ShareOutcome × Bytes
judge input hash =
    if meets_difficulty hash input.session_difficulty
    then (accepted (meets_difficulty hash input.job.upstream_diff), hash)
    else (below_difficulty, hash)

abbrev pub accept_decoded : VerifyInput → Option Bytes → ShareOutcome × Bytes
accept_decoded input none = (bad_blob, zeros)
accept_decoded input (some b) = if length b == 32 then judge input b else (bad_blob, zeros)

abbrev pub seed_of : Option Bytes → Bytes
seed_of none = zeros
seed_of (some s) = if length s == 32 then s else zeros

abbrev pub judge_hash : VerifyInput → Option Bytes → Result VerifyError (ShareOutcome × Bytes)
judge_hash input none = err randomx
judge_hash input (some hash) = ok (judge input hash)

-- `decode` is `hex::decode`, and `hash` the verifier's.
module _ (decode : Bytes → Option Bytes) where
  unfoldable pub assemble_blob_with_nonce : Bytes → Bytes → Result BlobError Bytes
  assemble_blob_with_nonce blob_hex nonce_hex = put_decoded (decode blob_hex) (decode nonce_hex)

  unfoldable pub accept_claimed_result : VerifyInput → ShareOutcome × Bytes
  accept_claimed_result input = accept_decoded input (decode input.claimed_result_hex)

module _ (decode : Bytes → Option Bytes) (hash : Bytes → Bytes → Option Bytes) where
  abbrev pub verify_blob :
      VerifyInput → Result BlobError Bytes → Result VerifyError (ShareOutcome × Bytes)
  verify_blob input (err _) = ok (bad_blob, zeros)
  verify_blob input (ok blob) = judge_hash input (hash (seed_of (decode input.job.seed_hex)) blob)

  abbrev pub verify_nonce : VerifyInput → Option Bytes → Result VerifyError (ShareOutcome × Bytes)
  verify_nonce input none = err bad_nonce_hex
  verify_nonce input (some nonce) =
      if length nonce == nonce_len
      then verify_blob input (assemble_blob_with_nonce decode input.job.blob_hex input.nonce_hex)
      else ok (bad_blob, zeros)

  unfoldable pub verify_share : VerifyInput → Result VerifyError (ShareOutcome × Bytes)
  verify_share input = verify_nonce input (decode input.nonce_hex)
