-- ===== src/CrossroadsOracle/Source/Hashes.antt =====
-- The hash that a quorum has voted for, in crates/crossroads-oracle/src/source.rs.
use cr_faucet.Common.{
  ℕ, ◌+◌, ◌≤◌, ◌≡◌, some, List, [], ◌∷◌, leb, if◌then◌else◌, Bytes, bytes_eq, bytes_eq_refl,
  eq_of_bytes_eq, subst, All, arith, inl, inr, Bool-cases,
}
use cr_faucet.CrossroadsOracle.Source.{
  Count, add_vote, count_votes, max_by_votes, most_voted, if_quorum, quorum_hash,
}

-- How many of the votes are for v.
abbrev pub agree : Bytes → List Bytes → ℕ
agree v [] = 0
agree v (w ∷ ws) = (if bytes_eq w v then 1 else 0) + agree v ws

-- The order of a hash map adds no entry.
abbrev pub AddsNone : (List Count → List Count) → Type 1
AddsNone order = (P : Count → Type 0) (es : List Count) → All P es → All P (order es)

abbrev total : Bytes → List Count → ℕ
total v [] = 0
total v (e ∷ es) = (if bytes_eq e.value v then e.votes else 0) + total v es

total-add_vote :
    (v w : Bytes) (es : List Count)
    → total v (add_vote w es) ≤ (if bytes_eq w v then 1 else 0) + total v es
unfolding add_vote
total-add_vote v w [] = ground arith
total-add_vote v w (e ∷ es) = elim (Bool-cases (bytes_eq e.value w)) [
  | inl q ↦ let same : e.value ≡ w = eq_of_bytes_eq e.value w q in rw (q, same) (ground arith)
  | inr q ↦ rw q (omega (arith, total-add_vote v w es))
]

total-count_votes :
    (v : Bytes) (es : List Count) (ws : List Bytes)
    → total v (count_votes es ws) ≤ total v es + agree v ws
unfolding count_votes
total-count_votes v es [] = omega arith
total-count_votes v es (w ∷ ws) =
    omega (arith, total-count_votes v (add_vote w es) ws, total-add_vote v w es)

-- No entry has more than its votes, also with entries before it.
own_total :
    (bound : Bytes → ℕ) (es : List Count)
    → ((v : Bytes) → total v es ≤ bound v)
    → All (λ e. e.votes ≤ bound e.value) es
own_total bound [] h = tt
own_total bound (e ∷ es) h =
    (ground (arith, h e.value, bytes_eq_refl e.value), own_total bound es (λ v. omega (arith, h v)))

max_by_votes-All :
    (P : Count → Type 0) (best : Count) (es : List Count)
    → P best
    → All P es
    → P (max_by_votes best es)
unfolding max_by_votes
max_by_votes-All P best [] p a = p
max_by_votes-All P best (e ∷ es) p a = elim (Bool-cases (leb best.votes e.votes)) [
  | inl q ↦ rw q (max_by_votes-All P e es a.0 a.1)
  | inr q ↦ rw q (max_by_votes-All P best es p a.1)
]

if_quorum-some :
    (quorum : ℕ) (e f : Count) → if_quorum quorum e ≡ some f → (e ≡ f) × (quorum ≤ e.votes)
if_quorum-some quorum e f h = grind arith

most_voted-some :
    (P : Count → Type 0) (es : List Count) (quorum : ℕ) (e : Count)
    → All P es
    → most_voted es quorum ≡ some e
    → P e × (quorum ≤ e.votes)
most_voted-some P [] quorum e a h = cc
most_voted-some P (x ∷ es) quorum e a h =
    let found = if_quorum-some quorum (max_by_votes x es) e h in
    let p = max_by_votes-All P x es a.0 a.1 in
    (subst P found.0 p, subst (λ c. quorum ≤ c.votes) found.0 found.1)

pub quorum_hash-agree :
    (order : List Count → List Count) (votes : List Bytes) (quorum : ℕ) (e : Count)
    → AddsNone order
    → quorum_hash order votes quorum ≡ some e
    → (quorum ≤ e.votes) × (e.votes ≤ agree e.value votes)
unfolding quorum_hash
quorum_hash-agree order votes quorum e adds h =
    let fair =
      own_total (λ v. agree v votes) (count_votes [] votes)
        (λ v. omega (arith, total-count_votes v [] votes)) in
    let found =
      most_voted-some (λ c. c.votes ≤ agree c.value votes) (order (count_votes [] votes)) quorum e
        (adds (λ c. c.votes ≤ agree c.value votes) (count_votes [] votes) fair) h in
    (found.1, found.0)
