-- ===== src/VoucherSigner/Solvency.antt =====
-- What a miner can mint with the vouchers of crates/voucher-signer/src/lib.rs, over any history of
-- credits, vouchers, restores, losses of the Redis data, and claims on the token.
use cr_faucet.Common.{
  ℕ, ◌^◌, ◌≡◌, ◌==◌, ==_iff, Bool, true, false, Option, none, some, List, [], ◌∷◌, All, Any, Bytes,
  arith, refl, sym, subst, if◌then◌else◌, inl, inr, Bool-cases,
}
use cr_faucet.Common.Dict.{lookup, lookup-insert, lookup-erase}
use cr_faucet.Common.Int.{
  ℤ, pos, ◌+ℤ◌, ◌≤ℤ◌, ◌<ℤ◌, max_ℤ, leb_ℤ, ltb_ℤ, InI64, i64_max, one_sign, +ℤ_parts, pos_part,
}
use cr_faucet.Common.Results.{Result, ok, err}
use cr_faucet.Contracts.MiningPoolToken.{Token, claim, claimed_of, mint}
use cr_faucet.PoolCore.Lua.{IsExact}
use cr_faucet.PoolCore.Store.{
  Redis, empty_redis, StoreError, earned, last_voucher_cumulative, add_earned, add_fee_accrued,
  BalanceKey, earned_key, last_voucher_key, evict, balance_state, set_last_voucher_cumulative,
  restore_cumulative,
}
use cr_faucet.PoolCore.Store.Laws.{restore-lookup}
use cr_faucet.PoolCore.Voucher.{VoucherDecision, VoucherError, decide, covered}
use cr_faucet.PoolCore.Voucher.Correct.{IsI64, decide_sound, covered_bounds}
use cr_faucet.Accountant.{Rates, credit, after_credit, accrue_if}
use cr_faucet.VoucherSigner.{
  Signer, VoucherOut, ServiceError, issue, restore, u256_to_i64_or, inputs_of, claimed_or_zero,
  voucher_out, voucher_for, issue_decided, restore_signed,
}

-- The amounts of the vouchers that were handed out to `u`.
abbrev pub with_voucher : ℕ → Result ServiceError VoucherOut → List ℤ → List ℤ
with_voucher u (err _) vs = vs
with_voucher u (ok o) vs = if o.user == u then o.cumulative_amount ∷ vs else vs

-- What a share adds to the credit of `u`.
abbrev pub share_value : Rates → ℕ → ℕ → ℕ → ℤ
share_value rates u miner difficulty =
    if miner == u then max_ℤ (rates.credit_of difficulty) (pos 0) else pos 0

-- An amount stands in a voucher of `u`.
abbrev pub IsIssued : List ℤ → ℤ → Type 0
IsIssued vs a = Any (λ v. v ≡ a) vs

-- A history of the store and the token, with the vouchers of the miner `u` and the value of its
-- shares. A signature that recovers to the signer is one of a voucher that was handed out: nobody
-- else has the key. The reads of the token's `claimed` may fail or be wrong.
pub data Run (signer : Signer) (rates : Rates) (u : ℕ) : Redis → Token → List ℤ → ℤ → Type 0 where
  begins : (t : Token) → claimed_of u t ≡ 0 → Run signer rates u empty_redis t [] (pos 0)
  credits :
      (miner difficulty : ℕ) (s : Redis) (t : Token) (vs : List ℤ) (c : ℤ)
      → Run signer rates u s t vs c
      → Run signer rates u
          (credit rates miner difficulty s).1
          t
          vs
          (c +ℤ share_value rates u miner difficulty)
  issues :
      (user : ℕ) (amount : Option ℤ) (now : ℕ) (read : Option ℕ) (s : Redis) (t : Token)
      (vs : List ℤ) (c : ℤ)
      → Run signer rates u s t vs c
      → Run signer rates u
          (issue signer user amount now read s).1
          t
          (with_voucher u (issue signer user amount now read s).0 vs)
          c
  restores :
      (user : ℕ) (cumulative : ℤ) (signed_at : ℕ) (signature : Bytes) (read : Option ℕ) (s : Redis)
      (t : Token) (vs : List ℤ) (c : ℤ)
      → InI64 cumulative
      → (signer.recover
              (record {
                user = user;
                cumulative_amount = pos_part cumulative;
                signed_at = signed_at;
              })
              signature
            ≡ some signer.address
          → user ≡ u
          → IsIssued vs cumulative)
      → Run signer rates u s t vs c
      → Run signer rates u (restore signer user cumulative signed_at signature read s).1 t vs c
  evicts :
      (key : BalanceKey) (miner : ℕ) (s : Redis) (t : Token) (vs : List ℤ) (c : ℤ)
      → Run signer rates u s t vs c
      → Run signer rates u (evict key miner s) t vs c
  wipes :
      (s : Redis) (t : Token) (vs : List ℤ) (c : ℤ)
      → Run signer rates u s t vs c
      → Run signer rates u empty_redis t vs c
  claims :
      (user cumulative signed_by : ℕ) (s : Redis) (t t' : Token) (vs : List ℤ) (c : ℤ)
      → (signed_by ≡ t.authorized_signer → user ≡ u → IsIssued vs (pos cumulative))
      → claim user cumulative signed_by t ≡ some t'
      → Run signer rates u s t vs c
      → Run signer rates u s t' vs c

-- The two balances of the miner are below 2 ^ 53, and what it has earned is within its credit.
abbrev pub Fits : ℕ → Redis → ℤ → Type 0
Fits u s c = IsExact (earned u s) × IsExact (last_voucher_cumulative u s) × (earned u s ≤ℤ c)

-- What doubles hold: 9007 XMR.
abbrev pub IsBounded : ℤ → Type 0
IsBounded c = c <ℤ pos (2 ^ 53)

abbrev pub Within : ℕ → Token → List ℤ → ℤ → Type 0
Within u t vs c = (pos 0 ≤ℤ c) × All (λ v. v ≤ℤ c) vs × (pos (claimed_of u t) ≤ℤ c)

add_fee_accrued-earned :
    (u : ℕ) (fee : ℤ) (s : Redis)
    → (earned u (add_fee_accrued fee s).1 ≡ earned u s)
      × (last_voucher_cumulative u (add_fee_accrued fee s).1 ≡ last_voucher_cumulative u s)
unfolding add_fee_accrued earned last_voucher_cumulative
add_fee_accrued-earned u fee s = ground arith

add_earned-Fits :
    (u miner : ℕ) (v : ℤ) (s : Redis) (c : ℤ)
    → pos 0 <ℤ v
    → IsBounded (c +ℤ (if miner == u then v else pos 0))
    → Fits u s c
    → Fits u (add_earned miner v s).1 (c +ℤ (if miner == u then v else pos 0))
unfolding add_earned earned last_voucher_cumulative
add_earned-Fits u miner v s c p b h = ground (
  arith,
  lookup-insert u miner (earned miner s +ℤ v) s.earned,
  ==_iff miner u,
  +ℤ_parts (earned miner s) v,
  +ℤ_parts c v,
  +ℤ_parts c (pos 0),
)

set_last_Fits :
    (u user : ℕ) (v : ℤ) (s : Redis) (c : ℤ)
    → (user ≡ u → IsExact v)
    → Fits u s c
    → Fits u (set_last_voucher_cumulative user v s) c
unfolding set_last_voucher_cumulative earned last_voucher_cumulative
set_last_Fits u user v s c p h =
    ground (arith, lookup-insert u user v s.last_voucher, ==_iff user u)

small_value : (v c : ℤ) → pos 0 <ℤ v → IsBounded c → v ≤ℤ c → IsExact v
small_value v c p b h = omega (arith, p, b, h, one_sign v, one_sign c)

restore_Fits :
    (u user : ℕ) (v : ℤ) (s : Redis) (c : ℤ)
    → pos 0 <ℤ v
    → IsBounded c
    → (user ≡ u → v ≤ℤ c)
    → Fits u s c
    → Fits u (restore_cumulative user v s).1 c
restore_Fits u user v s c some_value b p h =
    let exact : user ≡ u
        → IsExact v × IsExact (earned user s) × IsExact (last_voucher_cumulative user s) =
      λ same. (
        small_value v c some_value b (p same),
        subst (λ x. IsExact (earned x s)) (sym same) h.0,
        subst (λ x. IsExact (last_voucher_cumulative x s)) (sym same) h.1,
      ) in
    ground (arith, restore-lookup user u v s exact, small_value v c some_value b, ==_iff user u)

evict-Fits :
    (key : BalanceKey) (u miner : ℕ) (s : Redis) (c : ℤ)
    → pos 0 ≤ℤ c
    → Fits u s c
    → Fits u (evict key miner s) c
unfolding evict earned last_voucher_cumulative
evict-Fits earned_key u miner s c p h = ground (arith, lookup-erase u miner s.earned)
evict-Fits last_voucher_key u miner s c p h = ground (arith, lookup-erase u miner s.last_voucher)

claim_within :
    (u user cumulative signed_by : ℕ) (t t' : Token) (c : ℤ)
    → (signed_by ≡ t.authorized_signer → user ≡ u → pos cumulative ≤ℤ c)
    → claim user cumulative signed_by t ≡ some t'
    → pos (claimed_of u t) ≤ℤ c
    → pos (claimed_of u t') ≤ℤ c
unfolding claim claimed_of mint
claim_within u user cumulative signed_by t t' c p e h = ground (
  arith,
  lookup-insert u user cumulative t.claimed,
  ==_iff signed_by t.authorized_signer,
  ==_iff user u,
)

accrue_Fits :
    (u : ℕ) (test : Bool) (fee v : ℤ) (s : Redis) (c : ℤ)
    → Fits u s c
    → Fits u (accrue_if test fee v s).1 c
accrue_Fits u true fee v s c h = ground (arith, add_fee_accrued-earned u fee s)
accrue_Fits u false fee v s c h = h

after_credit-Fits :
    (rates : Rates) (u difficulty : ℕ) (v : ℤ) (r : Result StoreError ℤ) (s : Redis) (c : ℤ)
    → Fits u s c
    → Fits u (after_credit rates difficulty v (r, s)).1 c
after_credit-Fits rates u difficulty v (ok _) s c h =
    accrue_Fits u (ltb_ℤ (pos 0) (rates.fee_of difficulty)) (rates.fee_of difficulty) v s c h
after_credit-Fits rates u difficulty v (err _) s c h = h

share_value_of :
    (rates : Rates) (u miner difficulty : ℕ)
    → leb_ℤ (rates.credit_of difficulty) (pos 0) ≡ false
    → share_value rates u miner difficulty
      ≡ (if miner == u then rates.credit_of difficulty else pos 0)
share_value_of rates u miner difficulty q = ground arith

credit-Fits :
    (rates : Rates) (u miner difficulty : ℕ) (s : Redis) (c : ℤ)
    → IsBounded (c +ℤ share_value rates u miner difficulty)
    → Fits u s c
    → Fits u (credit rates miner difficulty s).1 (c +ℤ share_value rates u miner difficulty)
unfolding credit
credit-Fits rates u miner difficulty s c b h =
    let v = rates.credit_of difficulty in
    elim (Bool-cases (leb_ℤ v (pos 0))) [
      | inl q ↦ rw q (ground (arith, h, q, +ℤ_parts c (share_value rates u miner difficulty)))
      | inr q ↦ rw q (
          after_credit-Fits rates u difficulty v (add_earned miner v s).0 (add_earned miner v s).1
            (c +ℤ share_value rates u miner difficulty)
            (rw (share_value_of rates u miner difficulty q) (
              add_earned-Fits u miner v s c (ground (arith, q))
                (subst (λ x. IsBounded (c +ℤ x)) (share_value_of rates u miner difficulty q) b) h)))
    ]

Fits-read : (read : Option ℕ) → InI64 (u256_to_i64_or (claimed_or_zero read) (pos i64_max))
unfolding u256_to_i64_or
Fits-read none = ground arith
Fits-read (some v) = ground arith

exact_fits : (z : ℤ) → IsExact z → InI64 z
exact_fits z h = omega (arith, h)

-- What `issue` grants is positive and within what the miner has earned.
issue_grants :
    (user : ℕ) (amount : Option ℤ) (read : Option ℕ) (s : Redis) (c : ℤ) (d : VoucherDecision)
    → Fits user s c
    → decide (inputs_of user amount read s) ≡ ok d
    → (pos 0 <ℤ d.new_cumulative) × (d.new_cumulative ≤ℤ earned user s)
unfolding balance_state
issue_grants user amount read s c d h e =
    let i = inputs_of user amount read s in
    let fits : IsI64 i = record {
      earned_fits = exact_fits (earned user s) h.0;
      last_fits = exact_fits (last_voucher_cumulative user s) h.1;
      claimed_fits = Fits-read read;
    } in
    let (_, positive, sum, within) = decide_sound i d fits e in
    let bounds = covered_bounds i in
    (ground (arith, positive, sum, bounds, +ℤ_parts (covered i) d.marginal), within)

handed_out :
    (u user now claimed : ℕ) (e : ℤ) (d : VoucherDecision) (o : Option Bytes) (vs : List ℤ) (c : ℤ)
    → (user ≡ u → d.new_cumulative ≤ℤ c)
    → All (λ v. v ≤ℤ c) vs
    → All (λ v. v ≤ℤ c) (with_voucher u (voucher_out user now claimed e d o) vs)
handed_out u user now claimed e d none vs c h k = k
handed_out u user now claimed e d (some _) vs c h k = ground (arith, ==_iff user u)

issue_decided-Fits :
    (signer : Signer) (u user now : ℕ) (read : Option ℕ) (s : Redis) (c : ℤ) (vs : List ℤ)
    (r : Result VoucherError VoucherDecision)
    → ((d : VoucherDecision)
        → r ≡ ok d
        → user ≡ u
        → IsExact d.new_cumulative × (d.new_cumulative ≤ℤ c))
    → Fits u s c
    → All (λ v. v ≤ℤ c) vs
    → Fits u (issue_decided signer user now read s r).1 c
      × All (λ v. v ≤ℤ c) (with_voucher u (issue_decided signer user now read s r).0 vs)
issue_decided-Fits signer u user now read s c vs (err e) g h k = (h, k)
issue_decided-Fits signer u user now read s c vs (ok d) g h k = (
  set_last_Fits u user d.new_cumulative s c (λ same. (g d refl same).0) h,
  handed_out u user now (claimed_or_zero read) _ d (signer.sign (voucher_for user now d)) vs c
      (λ same. (g d refl same).1) k,
)

issue-Fits :
    (signer : Signer) (u user : ℕ) (amount : Option ℤ) (now : ℕ) (read : Option ℕ) (s : Redis)
    (c : ℤ) (vs : List ℤ)
    → Fits u s c
    → All (λ v. v ≤ℤ c) vs
    → Fits u (issue signer user amount now read s).1 c
      × All (λ v. v ≤ℤ c) (with_voucher u (issue signer user amount now read s).0 vs)
unfolding issue
issue-Fits signer u user amount now read s c vs h k =
    issue_decided-Fits signer u user now read s c vs (decide (inputs_of user amount read s))
      (λ d e same.
        let own : Fits user s c = subst (λ x. Fits x s c) (sym same) h in
        let granted = issue_grants user amount read s c d own e in
        let one = one_sign d.new_cumulative in
        (omega (arith, granted, own, one), omega (arith, granted, own)))
      h k

issued_within : (vs : List ℤ) (a c : ℤ) → IsIssued vs a → All (λ v. v ≤ℤ c) vs → a ≤ℤ c
issued_within [] a c i k = absurd i
issued_within (v ∷ vs) a c (inl e) k = subst (λ x. x ≤ℤ c) e k.0
issued_within (v ∷ vs) a c (inr i) k = issued_within vs a c i k.1

restore_signed-Fits :
    (signer : Signer) (u user : ℕ) (v : ℤ) (read : Option ℕ) (s : Redis) (c : ℤ) (r : Option ℕ)
    → pos 0 <ℤ v
    → IsBounded c
    → (r ≡ some signer.address → user ≡ u → v ≤ℤ c)
    → Fits u s c
    → Fits u (restore_signed signer user v read s r).1 c
restore_signed-Fits signer u user v read s c none fits b g h = h
restore_signed-Fits signer u user v read s c (some a) fits b g h =
    elim (Bool-cases (a == signer.address)) [
      | inl q ↦
          rw q (restore_Fits u user v s c fits b (g (rw ((==_iff a signer.address).0 q) refl)) h)
      | inr q ↦ rw q h
    ]

All-raise : (vs : List ℤ) (c c' : ℤ) → c ≤ℤ c' → All (λ v. v ≤ℤ c) vs → All (λ v. v ≤ℤ c') vs
All-raise [] c c' h k = tt
All-raise (v ∷ vs) c c' h k = (omega (arith, h, k.0), All-raise vs c c' h k.1)

restore-kept :
    (signer : Signer) (u user : ℕ) (v : ℤ) (at : ℕ) (sig : Bytes) (read : Option ℕ) (s : Redis)
    (c : ℤ)
    → IsBounded c
    → (signer.recover (record { user = user; cumulative_amount = pos_part v; signed_at = at }) sig
          ≡ some signer.address
        → user ≡ u
        → v ≤ℤ c)
    → Fits u s c
    → Fits u (restore signer user v at sig read s).1 c
unfolding restore
restore-kept signer u user v at sig read s c b g h = elim (Bool-cases (leb_ℤ v (pos 0))) [
  | inl q ↦ rw q h
  | inr q ↦ rw q (
      restore_signed-Fits signer u user v read s c (signer.recover _ sig) (ground (arith, q)) b g h)
]

grown :
    (rates : Rates) (u miner difficulty : ℕ) (c : ℤ)
    → c ≤ℤ c +ℤ share_value rates u miner difficulty
grown rates u miner difficulty c = ground (arith, +ℤ_parts c (share_value rates u miner difficulty))

begun_Fits : (u : ℕ) (c : ℤ) → pos 0 ≤ℤ c → Fits u empty_redis c
unfolding earned last_voucher_cumulative lookup
begun_Fits u c h = ground arith

begun :
    (u : ℕ) (t : Token) → claimed_of u t ≡ 0 → Fits u empty_redis (pos 0) × Within u t [] (pos 0)
begun u t z = (begun_Fits u (pos 0) (omega arith), (omega arith, tt, omega (arith, z)))

Run-Fits :
    (signer : Signer) (rates : Rates) (u : ℕ) (s : Redis) (t : Token) (vs : List ℤ) (c : ℤ)
    → Run signer rates u s t vs c
    → IsBounded c
    → Fits u s c × Within u t vs c
Run-Fits signer rates u _ _ _ _ (begins t z) b = begun u t z
Run-Fits signer rates u _ _ _ _ (credits miner difficulty s t vs c r) b =
    let grows : c ≤ℤ c +ℤ share_value rates u miner difficulty = grown rates u miner difficulty c in
    let (f, w) = Run-Fits signer rates u s t vs c r (omega (arith, grows, b)) in
    (
      credit-Fits rates u miner difficulty s c b f,
      (omega (arith, w.0, grows), All-raise vs c _ grows w.1, omega (arith, w.2, grows)),
    )
Run-Fits signer rates u _ _ _ _ (issues user amount now read s t vs c r) b =
    let (f, w) = Run-Fits signer rates u s t vs c r b in
    let (f', k) = issue-Fits signer u user amount now read s c vs f w.1 in (f', (w.0, k, w.2))
Run-Fits signer rates u _ _ _ _ (restores user v at sig read s t vs c fits genuine r) b =
    let (f, w) = Run-Fits signer rates u s t vs c r b in
    (
      restore-kept signer u user v at sig read s c b
          (λ real same. issued_within vs v c (genuine real same) w.1) f,
      w,
    )
Run-Fits signer rates u _ _ _ _ (evicts key miner s t vs c r) b =
    let (f, w) = Run-Fits signer rates u s t vs c r b in (evict-Fits key u miner s c w.0 f, w)
Run-Fits signer rates u _ _ _ _ (wipes s t vs c r) b =
    let (f, w) = Run-Fits signer rates u s t vs c r b in ((begun_Fits u c w.0), w)
Run-Fits signer rates u _ _ _ _ (claims user v by s t t' vs c genuine e r) b =
    let (f, w) = Run-Fits signer rates u s t vs c r b in
    (
      f,
      (
        w.0,
        w.1,
        claim_within u user v by t t' c
            (λ own same. issued_within vs (pos v) c (genuine own same) w.1) e w.2,
      ),
    )

-- Whatever is credited, issued, restored, lost and claimed, in any order, what a miner has claimed on
-- the token, and with it what it was minted, is at most the value of its shares; so is every voucher
-- that it was handed out. The shares are worth less than 2 ^ 53 atomic units, which the doubles of the restore
-- script hold.
pub claims_covered :
    (signer : Signer) (rates : Rates) (u : ℕ) (s : Redis) (t : Token) (vs : List ℤ) (c : ℤ)
    → Run signer rates u s t vs c
    → IsBounded c
    → (pos (claimed_of u t) ≤ℤ c) × All (λ v. v ≤ℤ c) vs
claims_covered signer rates u s t vs c r b =
    let (_, w) = Run-Fits signer rates u s t vs c r b in (w.2, w.1)
