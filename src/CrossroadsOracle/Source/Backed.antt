-- ===== src/CrossroadsOracle/Source/Backed.antt =====
-- What stands behind a block that crates/crossroads-oracle/src/source.rs confirms.
use cr_faucet.Common.{
  ℕ, ◌+◌, ◌-◌, ◌%◌, ◌≤◌, ◌<◌, ◌≡◌, Option, none, some, List, Bytes, Bool, true, false, ltb, refl,
  arith, ap, subst, ◌∙◌, inl, inr, Bool-cases,
}
use cr_faucet.Common.Results.{Result, ok, err, ◌>>=◌}
use cr_faucet.CrossroadsOracle.Source.{
  Vote, Count, Block, BlockTag, Confirmed, Refusal, word, present, quorum_tip, quorum_hash,
  or_refuse, unless, tip_from, finality, confirm_votes, poll_members, fetch_confirmed, no_tip,
  no_finality, not_final, no_hash, unconfirmed,
}
use cr_faucet.CrossroadsOracle.Source.Tips.{reach, reach-later, quorum_tip-reach}
use cr_faucet.CrossroadsOracle.Source.Fits.{tips_fit}
use cr_faucet.CrossroadsOracle.Source.Hashes.{agree, AddsNone, quorum_hash-agree}

bind-ok :
    {A B : Type 0} (m : Result Refusal A) (f : A → Result Refusal B) (b : B)
    → (m >>= f) ≡ ok b
    → (a : A) × (m ≡ ok a) × (f a ≡ ok b)
bind-ok (ok a) f b h = (a, refl, h)
bind-ok (err e) f b h = cc

or_refuse-ok : {A : Type 0} (e : Refusal) (o : Option A) (a : A) → or_refuse e o ≡ ok a → o ≡ some a
or_refuse-ok e none a h = cc
or_refuse-ok e (some x) a h = cc

unless-ok :
    {A : Type 0} (t : Bool) (e : Refusal) (x a : A) → unless t e x ≡ ok a → (t ≡ false) × (x ≡ a)
unless-ok true e x a h = cc
unless-ok false e x a h = (refl, cc)

tip_from-ok :
    (e f : Refusal) (tips : List ℕ) (quorum least t : ℕ)
    → tip_from e f tips quorum least ≡ ok t
    → (0 < quorum) × (quorum ≤ reach t tips) × (least ≤ t)
unfolding tip_from
tip_from-ok e f tips quorum least t h =
    let s1 =
      bind-ok (quorum_tip tips quorum)
        (λ found. or_refuse e found >>= λ reached. unless (ltb reached least) f reached) t h in
    let s2 = bind-ok (or_refuse e s1.0) (λ reached. unless (ltb reached least) f reached) t s1.2 in
    let s3 = unless-ok (ltb s2.0 least) f s2.0 t s2.2 in
    let found : quorum_tip tips quorum ≡ ok (some s2.0) =
      s1.1 ∙ ap ok (or_refuse-ok e s1.0 s2.0 s2.1) in
    let back = quorum_tip-reach tips quorum s2.0 found in
    let high : least ≤ s2.0 = ground (arith, s3.0) in
    (back.0, subst (λ x. quorum ≤ reach x tips) s3.1 back.1, omega (arith, high, s3.1))

finality-ok :
    (votes : List Vote) (quorum n : ℕ) (mandate : Bool) (f : ℕ)
    → finality votes quorum n mandate ≡ ok f
    → mandate ≡ true
    → quorum ≤ reach n (present (λ v. v.finalized_number) votes)
unfolding finality
finality-ok votes quorum n true f h m =
    let tips = present (λ v. v.finalized_number) votes in
    let back = tip_from-ok no_finality not_final tips quorum n f h in
    omega (arith, back.1, reach-later f n tips back.2)
finality-ok votes quorum n false f h m = cc

-- A quorum stands behind c.
abbrev pub Backed : List Vote → ℕ → ℕ → ℕ → Bool → Confirmed → Type 0
Backed votes quorum n min mandate c =
    (0 < quorum)
    × (quorum ≤ c.observed_quorum)
    × (c.observed_quorum ≤ agree c.block_hash (present (λ v. v.block_hash) votes))
    × (quorum ≤ reach (n + min) (present (λ v. v.tip) votes))
    × (mandate ≡ true → quorum ≤ reach n (present (λ v. v.finalized_number) votes))
    × (c.observed_confirmations ≡ c.quorum_tip - n)
    × (n + min ≤ c.quorum_tip)

below_word :
    (tips : List ℕ) (quorum t : ℕ)
    → 0 < quorum
    → quorum ≤ reach t tips
    → reach word tips ≡ 0
    → t < word
below_word tips quorum t p q z = elim (Bool-cases (ltb t word)) [
  | inl r ↦ ground arith
  | inr r ↦ absurd (omega (arith, p, q, z, reach-later t word tips (ground arith)))
]

confirm_votes-Backed :
    (order : List Count → List Count) (votes : List Vote) (quorum n min : ℕ) (mandate : Bool)
    (c : Confirmed)
    → AddsNone order
    → n + min < word
    → reach word (present (λ v. v.tip) votes) ≡ 0
    → confirm_votes order votes quorum n min mandate ≡ ok c
    → Backed votes quorum n min mandate c
unfolding confirm_votes
confirm_votes-Backed order votes quorum n min mandate c adds sum_fits tips_fit h =
    let tips = present (λ v. v.tip) votes in
    let hashes = present (λ v. v.block_hash) votes in
    let result : ℕ → ℕ → Count → Confirmed = λ tip f e. record {
      block_hash = e.value;
      quorum_tip = tip;
      observed_confirmations = (tip + word - n) % word;
      observed_quorum = e.votes;
      finalized_block_number = f;
    } in
    let hashed : ℕ → ℕ → Result Refusal Confirmed =
      λ tip f. or_refuse no_hash (quorum_hash order hashes quorum) >>= λ e. ok (result tip f e) in
    let s1 =
      bind-ok (tip_from no_tip unconfirmed tips quorum ((n + min) % word))
        (λ tip. finality votes quorum n mandate >>= hashed tip) c h in
    let s2 = bind-ok (finality votes quorum n mandate) (hashed s1.0) c s1.2 in
    let s3 =
      bind-ok (or_refuse no_hash (quorum_hash order hashes quorum)) (λ e. ok (result s1.0 s2.0 e)) c
        s2.2 in
    let tip = tip_from-ok no_tip unconfirmed tips quorum ((n + min) % word) s1.0 s1.1 in
    let vote =
      quorum_hash-agree order hashes quorum s3.0 adds
        (or_refuse-ok no_hash (quorum_hash order hashes quorum) s3.0 s3.1) in
    let wide : s1.0 < word = below_word tips quorum s1.0 tip.0 tip.1 tips_fit in
    let low : n + min ≤ s1.0 = omega (arith, tip.2, sum_fits) in
    let same : result s1.0 s2.0 s3.0 ≡ c = cc in
    let backed : Backed votes quorum n min mandate (result s1.0 s2.0 s3.0) = (
      tip.0,
      vote.0,
      vote.1,
      omega (arith, tip.1, reach-later s1.0 (n + min) tips low),
      finality-ok votes quorum n mandate s2.0 s2.1,
      omega (arith, wide, low),
      low,
    ) in
    subst (Backed votes quorum n min mandate) same backed

-- A block is confirmed only with a quorum of at least one; as many members as are reported, and no fewer
-- than the quorum, have given its hash, and a quorum is at or above the height that has the
-- confirmations, and above the block itself in finality where that is asked for. The confirmations that
-- are reported are those of the tip, and enough. The height with the confirmations fits 64 bits.
pub fetch_confirmed-Backed :
    (parse_hash : Bytes → Option Bytes) (order : List Count → List Count)
    (ask : Bytes → BlockTag → Option Block) (urls : List Bytes) (quorum n min : ℕ) (mandate : Bool)
    (c : Confirmed)
    → AddsNone order
    → n + min < word
    → fetch_confirmed parse_hash order ask urls quorum n min mandate ≡ ok c
    → Backed (poll_members parse_hash ask urls n mandate) quorum n min mandate c
unfolding fetch_confirmed
fetch_confirmed-Backed parse_hash order ask urls quorum n min mandate c adds sum_fits h =
    confirm_votes-Backed order (poll_members parse_hash ask urls n mandate) quorum n min mandate c
      adds sum_fits (tips_fit parse_hash ask n mandate urls) h
