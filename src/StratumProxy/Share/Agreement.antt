-- ===== src/StratumProxy/Share/Agreement.antt =====
-- The two ways to take a share of crates/stratum-proxy/src/share.rs agree.
use cr_faucet.Common.{
  ℕ, zero, suc, ◌≡◌, ◌+◌, ◌≤◌, ◌==◌, Bool, true, false, Option, none, some, [], ◌∷◌, ◌++◌, Bytes,
  length, take, drop, refl, arith, ap, length-append, length-take, length-drop, sym, subst, ◌∙◌,
  Bool-cases, inl, inr,
}
use cr_faucet.Common.Results.{Result, ok, err}
use cr_faucet.StratumProxy.Share.{
  accepted, bad_blob, VerifyInput, BlobError, put_nonce, meets_difficulty, judge, accept_decoded,
  seed_of, judge_hash, assemble_blob_with_nonce, accept_claimed_result, verify_blob, verify_nonce,
  verify_share, zeros, nonce_offset, nonce_len,
}

pub judge_accepts :
    (input : VerifyInput) (h r : Bytes) (forwarded : Bool)
    → judge input h ≡ (accepted forwarded, r)
    → (r ≡ h)
      × (meets_difficulty h input.session_difficulty ≡ true)
      × (forwarded ≡ meets_difficulty h input.job.upstream_diff)
unfolding judge
judge_accepts input h r forwarded e = ground arith

take-prefix : (n : ℕ) (b r : Bytes) → n ≤ length b → take n (take n b ++ r) ≡ take n b
take-prefix zero b r h = refl
take-prefix (suc n) [] r h = absurd (omega (arith, h))
take-prefix (suc n) (x ∷ b) r h = ap (λ l. x ∷ l) (take-prefix n b r (omega (arith, h)))

drop-prefix : (n : ℕ) (b r : Bytes) → n ≤ length b → drop n (take n b ++ r) ≡ r
drop-prefix zero b r h = refl
drop-prefix (suc n) [] r h = absurd (omega (arith, h))
drop-prefix (suc n) (x ∷ b) r h = drop-prefix n b r (omega (arith, h))

put_nonce_shape :
    (blob nonce out : Bytes)
    → put_nonce blob nonce ≡ ok out
    → (nonce_offset + nonce_len ≤ length blob)
      × (length nonce ≡ nonce_len)
      × (out ≡ take nonce_offset blob ++ (nonce ++ drop (nonce_offset + nonce_len) blob))
unfolding put_nonce
put_nonce_shape blob nonce out e = ground arith

-- The blob that is hashed is the template with the nonce in its four bytes: its length and all other
-- bytes are the template's.
pub put_nonce_lem :
    (blob nonce out : Bytes)
    → put_nonce blob nonce ≡ ok out
    → (length out ≡ length blob)
      × (take nonce_offset out ≡ take nonce_offset blob)
      × (drop nonce_offset out ≡ nonce ++ drop (nonce_offset + nonce_len) blob)
put_nonce_lem blob nonce out e =
    let (long, four, shape) = put_nonce_shape blob nonce out e in
    let rest = nonce ++ drop (nonce_offset + nonce_len) blob in
    let l1 = length-append (take nonce_offset blob) rest in
    let l2 = length-append nonce (drop (nonce_offset + nonce_len) blob) in
    let l3 = length-take nonce_offset blob in
    let l4 = length-drop (nonce_offset + nonce_len) blob in
    rw shape (
      omega (arith, l1, l2, l3, l4),
      take-prefix nonce_offset blob rest (omega (arith, long)),
      drop-prefix nonce_offset blob rest (omega (arith, long)),
    )

ok_injective : {A B : Type 0} {x y : B} → ◌≡◌ {A = Result A B} (ok x) (ok y) → x ≡ y
ok_injective e = cc

module _ (decode : Bytes → Option Bytes) (hash : Bytes → Bytes → Option Bytes)
    (input : VerifyInput) where
  -- What an accepted share rests on.
  abbrev pub IsEarned : Bytes → Bool → Type 0
  IsEarned h forwarded =
      (blob : Bytes) × (assemble_blob_with_nonce decode input.job.blob_hex input.nonce_hex
        ≡ ok blob)
      × (hash (seed_of (decode input.job.seed_hex)) blob ≡ some h)
      × (meets_difficulty h input.session_difficulty ≡ true)
      × (forwarded ≡ meets_difficulty h input.job.upstream_diff)

  hash-IsEarned :
      (blob : Bytes) (o : Option Bytes) (h : Bytes) (forwarded : Bool)
      → assemble_blob_with_nonce decode input.job.blob_hex input.nonce_hex ≡ ok blob
      → hash (seed_of (decode input.job.seed_hex)) blob ≡ o
      → judge_hash input o ≡ ok (accepted forwarded, h)
      → IsEarned h forwarded
  hash-IsEarned blob none h forwarded a e j = cc
  hash-IsEarned blob (some g) h forwarded a e j =
      let (same, meets, up) = judge_accepts input g h forwarded (ok_injective j) in
      (
        blob,
        a,
        e ∙ ap some (sym same),
        subst (λ x. meets_difficulty x input.session_difficulty ≡ true) (sym same) meets,
        up ∙ ap (λ x. meets_difficulty x input.job.upstream_diff) (sym same),
      )

  blob-IsEarned :
      (r : Result BlobError Bytes) (h : Bytes) (forwarded : Bool)
      → assemble_blob_with_nonce decode input.job.blob_hex input.nonce_hex ≡ r
      → verify_blob decode hash input r ≡ ok (accepted forwarded, h)
      → IsEarned h forwarded
  blob-IsEarned (err x) h forwarded a j = cc
  blob-IsEarned (ok blob) h forwarded a j =
      hash-IsEarned blob (hash (seed_of (decode input.job.seed_hex)) blob) h forwarded a refl j

  verify_long :
      (n : Bytes)
      → length n == nonce_len ≡ true
      → verify_nonce decode hash input (some n)
        ≡ verify_blob decode hash input
            (assemble_blob_with_nonce decode input.job.blob_hex input.nonce_hex)
  verify_long n q = rw q refl

  verify_short :
      (n : Bytes)
      → length n == nonce_len ≡ false
      → verify_nonce decode hash input (some n) ≡ ok (bad_blob, zeros)
  verify_short n q = rw q refl

  nonce-IsEarned :
      (o : Option Bytes) (h : Bytes) (forwarded : Bool)
      → verify_nonce decode hash input o ≡ ok (accepted forwarded, h)
      → IsEarned h forwarded
  nonce-IsEarned none h forwarded j = cc
  nonce-IsEarned (some n) h forwarded j = elim (Bool-cases (length n == nonce_len)) [
    | inl q ↦ blob-IsEarned _ h forwarded refl (sym (verify_long n q) ∙ j)
    | inr q ↦ let short = sym (verify_short n q) ∙ j in cc
  ]

  -- A share that passes the full verification rests on a hash that the verifier computed, under the
  -- seed that the job gives, or 32 zero bytes if its text is not that of 32 bytes, from the job's blob with the nonce; the hash meets the session's difficulty, and the
  -- share is forwarded exactly if it meets the upstream's.
  pub verify_share_sound :
      (h : Bytes) (forwarded : Bool)
      → verify_share decode hash input ≡ ok (accepted forwarded, h)
      → IsEarned h forwarded
  unfolding verify_share
  verify_share_sound h forwarded j = nonce-IsEarned (decode input.nonce_hex) h forwarded j

  taken : (h : Bytes) → length h == 32 ≡ true → accept_decoded input (some h) ≡ judge input h
  taken h q = rw q refl

  -- A miner that claims the hash that the verifier would compute is judged the same whether its share
  -- is verified or taken at its word. The nonce has four bytes, the blob can be assembled, and the
  -- hash has 32 bytes.
  pub verify_agrees :
      (nonce blob h : Bytes)
      → decode input.nonce_hex ≡ some nonce
      → length nonce ≡ nonce_len
      → assemble_blob_with_nonce decode input.job.blob_hex input.nonce_hex ≡ ok blob
      → hash (seed_of (decode input.job.seed_hex)) blob ≡ some h
      → length h ≡ 32
      → decode input.claimed_result_hex ≡ some h
      → verify_share decode hash input ≡ ok (accept_claimed_result decode input)
  unfolding verify_share accept_claimed_result
  verify_agrees nonce blob h n four a g size claimed =
      let fits : length nonce == nonce_len ≡ true = rw four refl in
      let whole : length h == 32 ≡ true = rw size refl in
      ap (verify_nonce decode hash input) n
      ∙ verify_long nonce fits
      ∙ ap (verify_blob decode hash input) a
      ∙ ap (judge_hash input) g
      ∙ ap ok (sym (ap (accept_decoded input) claimed ∙ taken h whole))
