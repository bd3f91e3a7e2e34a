-- ===== src/PpsRate/Quorum.antt =====
-- decide_quorum and effective_pool of crates/pps-rate/src/lib.rs: which difficulty the sampled nodes
-- agree on. A hash map is the list of its entries; only its order is chosen.
pub mod Tally
pub mod Heights
pub mod Agreed
use cr_faucet.Common.{
  ℕ, suc, ◌+◌, Bool, true, false, ◌&&◌, ◌||◌, not, List, [], ◌∷◌, ◌++◌, Bytes, bytes_eq, any, ◌==◌,
  ltb, leb, if◌then◌else◌,
}
use cr_faucet.Common.Results.{Result, ok, err}

pub record NodeSample : Type 0 where
  pub url : Bytes
  pub height : ℕ
  pub difficulty : ℕ

-- An entry of `by_pair`: a height and a difficulty, with how many samples report both.
pub record Bucket : Type 0 where
  pub height : ℕ
  pub difficulty : ℕ
  pub count : ℕ

pub data QuorumError : Type 0 where
  no_samples ambiguous no_quorum : QuorumError

abbrev pub is_pair : ℕ → ℕ → Bucket → Bool
is_pair h d b = b.height == h && b.difficulty == d

-- `entry(..).or_insert(0) += 1`
unfoldable pub bump : ℕ → ℕ → List Bucket → List Bucket
bump h d [] = record { height = h; difficulty = d; count = 1 } ∷ []
bump h d (b ∷ bs) = if is_pair h d b then record b { count = b.count + 1 } ∷ bs else b ∷ bump h d bs

unfoldable pub tally : List Bucket → List NodeSample → List Bucket
tally by_pair [] = by_pair
tally by_pair (s ∷ samples) = tally (bump s.height s.difficulty by_pair) samples

-- The heights, each once, the highest first.
unfoldable pub insert_height : ℕ → List ℕ → List ℕ
insert_height h [] = h ∷ []
insert_height h (k ∷ hs) =
    if k == h then k ∷ hs else if ltb k h then h ∷ k ∷ hs else k ∷ insert_height h hs

unfoldable pub heights_of : List Bucket → List ℕ
unfolding insert_height
heights_of [] = []
heights_of (b ∷ bs) = insert_height b.height (heights_of bs)

-- The difficulties of a height that enough samples report.
unfoldable pub quorum_diffs : ℕ → ℕ → List Bucket → List ℕ
quorum_diffs quorum h [] = []
quorum_diffs quorum h (b ∷ bs) =
    if b.height == h && leb quorum b.count
    then b.difficulty ∷ quorum_diffs quorum h bs
    else quorum_diffs quorum h bs

abbrev pub settle_height : List ℕ → Result QuorumError ℕ → Result QuorumError ℕ
settle_height [] lower = lower
settle_height (d ∷ []) lower = ok d
settle_height (d ∷ e ∷ ds) lower = err ambiguous

-- The highest height at which there is a quorum decides.
unfoldable pub search_down : ℕ → List Bucket → List ℕ → Result QuorumError ℕ
search_down quorum by_pair [] = err no_quorum
search_down quorum by_pair (h ∷ hs) =
    settle_height (quorum_diffs quorum h by_pair) (search_down quorum by_pair hs)

abbrev pub decide_nonempty : ℕ → List NodeSample → Result QuorumError ℕ
decide_nonempty quorum samples =
    let by_pair = tally [] samples in search_down quorum by_pair (heights_of by_pair)

unfoldable pub decide_quorum : List NodeSample → ℕ → Result QuorumError ℕ
decide_quorum [] quorum = err no_samples
decide_quorum (s ∷ samples) quorum = decide_nonempty quorum (s ∷ samples)

-- The single node joins the pool, if it is set and not among it.
unfoldable pub effective_pool : Bytes → List Bytes → List Bytes
effective_pool single pool =
    if not (bytes_eq single []) && not (any (λ u. bytes_eq u single) pool)
    then pool ++ (single ∷ [])
    else pool

-- What came back of the nodes that were asked; the failures are left out.
unfoldable pub samples_of {ℓ} :
    {E : Type ℓ} → (Bytes → Result E NodeSample) → List Bytes → List NodeSample
samples_of fetch_one [] = []
samples_of fetch_one (u ∷ urls) = elim (fetch_one u) [
  | ok s ↦ s ∷ samples_of fetch_one urls
  | err e ↦ samples_of fetch_one urls
]

unfoldable pub quorum_difficulty {ℓ} :
    {E : Type ℓ} → (Bytes → Result E NodeSample) → List Bytes → ℕ → Result QuorumError ℕ
quorum_difficulty fetch_one urls quorum = decide_quorum (samples_of fetch_one urls) quorum
