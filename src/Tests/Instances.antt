-- ===== src/Tests/Instances.antt =====
-- Runs of crates/mining-pool/src/single_active.rs and crates/pool-core/src/stratum.rs.
use cr_faucet.Common.{
  ◌*◌, ◌+◌, ℕ, ◌≤◌, ◌<◌, ◌≡◌, ◌≢◌, ◌↔◌, ◌==◌, ◌^◌, ◌-◌, true, false, Option, none, some, List, [],
  ◌∷◌, ◌++◌, Bytes, refl, arith, inl, length,
}
use cr_faucet.Common.Results.{Result, ok, err}
use cr_faucet.PoolCore.Stratum.{target_hex_to_diff, diff_to_target_hex, target_of, u32_max}
use cr_faucet.PoolCore.Stratum.Targets.{target_roundtrip}
use cr_faucet.MiningPool.SingleActive.{
  Cbor, SingleActiveConfig, proceed, decide, watch, await_sole_instance, sole, unguarded,
  not_applicable,
}
use cr_faucet.MiningPool.SingleActive.Counting.{AllEqual, decide_lem}
use cr_faucet.MiningPool.SingleActive.Waiting.{
  ShowsSole, FailsInRow, IsOver, proceeds_only, wait_ends,
}
use cr_faucet.MiningPool.Bech32.{bech32_decode, regroup, position, split_last, values_of}
use cr_faucet.MiningPool.Bech32.Bits.{bits_of, regroup_bits}

-- Values are numbers.
abbrev plain : Cbor ℕ
plain = record {
  eq = λ a b. a == b;
  as_array = λ v. none;
  as_map = λ v. none;
  is_text = λ s v. false;
  null = 0;
}

-- A predecessor on the same node, an error, then alone.
abbrev checks : List (Result (Unit {0}) (List ℕ))
checks = ok (1 ∷ 1 ∷ []) ∷ err tt ∷ ok (1 ∷ []) ∷ ok (1 ∷ 2 ∷ []) ∷ []

abbrev strict : SingleActiveConfig
strict = record { enabled = true; node_aware = false }

waits_for_ghost : await_sole_instance plain true strict checks ≡ sole
unfolding await_sole_instance watch decide
waits_for_ghost = refl

decides_sole : decide plain (1 ∷ []) false ≡ proceed
unfolding decide
decides_sole = refl

abbrev ghost : List ℕ
ghost = 1 ∷ 1 ∷ []

decide_lem_example :
    ((decide plain ghost false ≡ proceed) ↔ (length ghost ≤ 1))
    × ((decide plain ghost true ≡ proceed) ↔ AllEqual plain ghost)
    × (decide plain ghost false ≡ proceed → decide plain ghost true ≡ proceed)
decide_lem_example = decide_lem plain ghost

proceeds_only_example :
    (watch plain false 0 checks ≡ sole → ShowsSole plain false checks)
    × (watch plain false 0 checks ≡ unguarded → FailsInRow plain false 6 checks)
    × (watch plain false 0 checks ≢ not_applicable)
proceeds_only_example = proceeds_only plain false checks

wait_ends_example : IsOver plain false (watch plain false 3 checks)
wait_ends_example =
    wait_ends plain false checks 3
      (inl (ok (1 ∷ 1 ∷ []) ∷ err tt ∷ [], 1 ∷ [], ok (1 ∷ 2 ∷ []) ∷ [], refl, decides_sole))

-- The symbols of the bytes 0x00 and 0x22, and four bits more.
regroups : regroup 0 0 (0 ∷ 0 ∷ 17 ∷ 2 ∷ []) ≡ 0 ∷ 34 ∷ []
unfolding regroup
regroups = refl

regroup_bits_example :
    (rest : List ℕ) × (bits_of 8 (regroup 0 0 (0 ∷ 0 ∷ 17 ∷ 2 ∷ [])) ++ rest
      ≡ bits_of 5 (0 ∷ 0 ∷ 17 ∷ 2 ∷ []))
    × (length rest ≤ 7)
regroup_bits_example = regroup_bits (0 ∷ 0 ∷ 17 ∷ 2 ∷ []) (omega arith)

decodes :
    bech32_decode (b'R' ∷ b'1' ∷ b'q' ∷ b'p' ∷ b'q' ∷ b'q' ∷ b'q' ∷ b'q' ∷ b'q' ∷ b'q' ∷ [])
    ≡ ok (b'r' ∷ [], 0 ∷ [])
unfolding bech32_decode position split_last values_of regroup
decodes = refl

abbrev copy : Bytes → Bytes
copy b = b

abbrev decode : Bytes → Option Bytes
decode b = some b

target_roundtrip_example :
    (back : ℕ) × (target_hex_to_diff decode (diff_to_target_hex copy 20_000) ≡ ok back)
    × (0 < 20_000
        → 20_000 ≤ u32_max
        → (0 < target_of 20_000)
          × (target_of 20_000 * 20_000 ≤ u32_max)
          × (u32_max < (target_of 20_000 + 1) * 20_000)
          × (20_000 ≤ back)
          × (target_of back ≡ target_of 20_000))
    × (◌≡◌ {A = ℕ} 20_000 0 → back ≡ 1)
    × (u32_max < 20_000 → back ≡ 2 ^ 64 - 1)
target_roundtrip_example = target_roundtrip copy decode 20_000 (λ b. refl)
