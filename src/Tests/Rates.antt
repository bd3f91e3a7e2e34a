-- ===== src/Tests/Rates.antt =====
-- Runs of crates/pps-rate/src/lib.rs.
use cr_faucet.Common.{ℕ, ◌≡◌, ◌↔◌, Bytes, bytes_eq, if◌then◌else◌, List, [], ◌∷◌, refl, arith}
use cr_faucet.Common.Results.{Result, ok, err}
use cr_faucet.PpsRate.Quorum.{
  NodeSample, ambiguous, no_quorum, bump, tally, insert_height, heights_of, quorum_diffs,
  search_down, decide_quorum, effective_pool, samples_of, quorum_difficulty,
}
use cr_faucet.PpsRate.Quorum.Tally.{reports}
use cr_faucet.PpsRate.Quorum.Agreed.{Leads, decide_quorum_lem}

abbrev node : ℕ → ℕ → ℕ → NodeSample
node n h d = record { url = n ∷ []; height = h; difficulty = d }

-- One node is ahead of the two that agree, and one lies.
abbrev four_nodes : List NodeSample
four_nodes = node 1 100 50 ∷ node 2 101 51 ∷ node 3 100 50 ∷ node 4 100 9 ∷ []

agreement : decide_quorum four_nodes 2 ≡ ok 50
unfolding decide_quorum tally bump heights_of insert_height search_down quorum_diffs
agreement = refl

nobody_agrees : decide_quorum four_nodes 3 ≡ err no_quorum
unfolding decide_quorum tally bump heights_of insert_height search_down quorum_diffs
nobody_agrees = refl

two_camps : decide_quorum (node 5 100 9 ∷ four_nodes) 2 ≡ err ambiguous
unfolding decide_quorum tally bump heights_of insert_height search_down quorum_diffs
two_camps = refl

abbrev first_two : Bytes → Result ℕ NodeSample
first_two url = if bytes_eq url (3 ∷ []) then err 0 else ok (node 1 100 50)

over_failures :
    quorum_difficulty first_two (effective_pool (1 ∷ []) ((3 ∷ []) ∷ (2 ∷ []) ∷ [])) 2 ≡ ok 50
unfolding bytes_eq quorum_difficulty samples_of effective_pool decide_quorum tally bump heights_of
    insert_height search_down quorum_diffs
over_failures = refl

decide_quorum_lem_example :
    (decide_quorum four_nodes 2 ≡ ok 50) ↔ ((h : ℕ) × Leads (λ g e. reports g e four_nodes) 2 h 50)
decide_quorum_lem_example = decide_quorum_lem four_nodes 2 50 (omega arith)
