-- ===== src/Tests/Verification.antt =====
-- Runs of crates/stratum-proxy/src/share.rs.
use cr_faucet.Common.{◌≡◌, ◌+◌, Option, some, [], ◌∷◌, ◌++◌, Bytes, refl, true, take, drop, length}
use cr_faucet.Common.Results.{ok}
use cr_faucet.PoolCore.Stratum.{from_le_bytes}
use cr_faucet.StratumProxy.Jobs.{UpstreamJob}
use cr_faucet.StratumProxy.Share.{
  accepted, VerifyInput, zeros, nonce_offset, nonce_len, put_nonce, assemble_blob_with_nonce,
  accept_claimed_result, verify_share, judge, meets_difficulty,
}
use cr_faucet.StratumProxy.Share.Agreement.{
  IsEarned, put_nonce_lem, verify_share_sound, verify_agrees,
}

-- A share of an easy job, hashed to zeros; texts stand for their bytes.
abbrev decode : Bytes → Option Bytes
decode b = some b

abbrev zero_hash : Bytes → Bytes → Option Bytes
zero_hash seed blob = some zeros

abbrev template : Bytes
template = zeros ++ take 11 zeros

abbrev nonce_bytes : Bytes
nonce_bytes = 1 ∷ 2 ∷ 3 ∷ 4 ∷ []

abbrev assembled : Bytes
assembled = take 39 template ++ nonce_bytes

abbrev job : UpstreamJob
job = record {
  job_id = [];
  blob_hex = template;
  seed_hex = zeros;
  upstream_target_hex = [];
  upstream_diff = 9;
  height = some 1;
}

abbrev share : VerifyInput
share = record {
  job = job;
  session_difficulty = 5;
  nonce_hex = nonce_bytes;
  claimed_result_hex = zeros;
}

assembles : assemble_blob_with_nonce decode template nonce_bytes ≡ ok assembled
unfolding assemble_blob_with_nonce put_nonce
assembles = refl

puts : put_nonce template nonce_bytes ≡ ok assembled
unfolding put_nonce
puts = refl

put_nonce_lem_example :
    (length assembled ≡ length template)
    × (take nonce_offset assembled ≡ take nonce_offset template)
    × (drop nonce_offset assembled ≡ nonce_bytes ++ drop (nonce_offset + nonce_len) template)
put_nonce_lem_example = put_nonce_lem template nonce_bytes assembled puts

passes : verify_share decode zero_hash share ≡ ok (accepted true, zeros)
unfolding verify_share assemble_blob_with_nonce put_nonce judge meets_difficulty from_le_bytes
passes = refl

verify_share_sound_example : IsEarned decode zero_hash share zeros true
verify_share_sound_example = verify_share_sound decode zero_hash share zeros true passes

verify_agrees_example :
    verify_share decode zero_hash share ≡ ok (accept_claimed_result decode share)
verify_agrees_example =
    verify_agrees decode zero_hash share nonce_bytes assembled zeros refl refl assembles refl refl
      refl
