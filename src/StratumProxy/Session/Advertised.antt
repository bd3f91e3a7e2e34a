-- ===== src/StratumProxy/Session/Advertised.antt =====
-- The ring of served difficulties of crates/stratum-proxy/src/session.rs: its size, and how long a job
-- keeps the difficulty that it was first served at.
use cr_faucet.Common.{
  ℕ, zero, suc, ◌+◌, ◌-◌, ◌≤◌, ◌≡◌, false, none, some, List, [], ◌∷◌, ◌++◌, Bytes, bytes_eq,
  bytes_eq_refl, bytes_eq_comm, length, drop, length-append, length-drop, arith, refl, ap, subst,
  sym, ◌∙◌, Bool-cases, inl, inr,
}
use mathlib.Core.List.{append_assoc}
use cr_faucet.StratumProxy.Session.{
  Advertised, advertised_cap, is_noted, note_advertised, advertised_diff,
}

-- The ring never outgrows its cap.
pub length-note_advertised :
    (job_id : Bytes) (diff : ℕ) (adv : Advertised)
    → length adv ≤ advertised_cap
    → length (note_advertised job_id diff adv) ≤ advertised_cap
unfolding note_advertised
length-note_advertised job_id diff adv h = elim (Bool-cases (is_noted job_id adv)) [
  | inl q ↦ rw q h
  | inr q ↦
      let grown = adv ++ ((job_id, diff) ∷ []) in
      rw q (omega (arith, length-drop (length grown - advertised_cap) grown))
]

-- Several jobs are served, one after the other.
unfoldable pub note_all : List (Bytes × ℕ) → Advertised → Advertised
note_all [] adv = adv
note_all ((j, d) ∷ served) adv = note_all served (note_advertised j d adv)

drop-append_le :
    {A : Type 0} (m : ℕ) (xs ys : List A) → m ≤ length xs → drop m (xs ++ ys) ≡ drop m xs ++ ys
drop-append_le zero xs ys h = refl
drop-append_le (suc m) [] ys h = absurd (omega (arith, h))
drop-append_le (suc m) (x ∷ xs) ys h = drop-append_le m xs ys (omega (arith, h))

is_noted-append :
    (k : Bytes) (xs ys : Advertised)
    → is_noted k (xs ++ ys) ≡ false
    → (is_noted k xs ≡ false) × (is_noted k ys ≡ false)
is_noted-append k [] ys h = (refl, h)
is_noted-append k (x ∷ xs) ys h = elim (Bool-cases (bytes_eq x.0 k)) [
  | inl q ↦ ground (arith, h)
  | inr q ↦ ground (arith, h, is_noted-append k xs ys)
]

is_noted_more :
    (k : Bytes) (xs : Advertised) (j : Bytes) (d : ℕ)
    → is_noted k xs ≡ false
    → bytes_eq j k ≡ false
    → is_noted k (xs ++ ((j, d) ∷ [])) ≡ false
is_noted_more k [] j d h q = rw q refl
is_noted_more k (x ∷ xs) j d h q = elim (Bool-cases (bytes_eq x.0 k)) [
  | inl e ↦ ground (arith, h)
  | inr e ↦ ground (arith, h, is_noted_more k xs j d)
]

-- The entry of a job stands before at most `n` later ones.
pub record Kept (job : Bytes) (d n : ℕ) (adv : Advertised) : Type 0 where
  pub before : Advertised
  pub after : Advertised
  pub split : adv ≡ before ++ ((job, d) ∷ after)
  pub last : is_noted job after ≡ false
  pub few : length after ≤ n
  pub fits : length before + length after ≤ 15

advertised_diff-unnoted :
    (job : Bytes) (adv : Advertised) → is_noted job adv ≡ false → advertised_diff job adv ≡ none
unfolding advertised_diff
advertised_diff-unnoted job [] h = refl
advertised_diff-unnoted job ((j, d) ∷ adv) h = ground (arith, h, advertised_diff-unnoted job adv)

advertised_diff-entry :
    (job : Bytes) (d : ℕ) (before after : Advertised)
    → is_noted job after ≡ false
    → advertised_diff job (before ++ ((job, d) ∷ after)) ≡ some d
unfolding advertised_diff
advertised_diff-entry job d [] after h =
    rw (advertised_diff-unnoted job after h, bytes_eq_refl job) refl
advertised_diff-entry job d ((j, e) ∷ before) after h =
    rw (advertised_diff-entry job d before after h) refl

Kept-advertised_diff :
    (job : Bytes) (d n : ℕ) (adv : Advertised) → Kept job d n adv → advertised_diff job adv ≡ some d
Kept-advertised_diff job d n adv k =
    ap (advertised_diff job) k.split ∙ advertised_diff-entry job d k.before k.after k.last

module _ (job : Bytes) (d n : ℕ) (adv : Advertised) (k : Bytes) (e : ℕ) where
  job_is_other : Kept job d n adv → is_noted k adv ≡ false → bytes_eq job k ≡ false
  job_is_other h new =
      let rest =
        is_noted-append k h.before ((job, d) ∷ h.after) (sym (ap (is_noted k) h.split) ∙ new) in
      ground (arith, rest.1)

  Kept-note_new :
      Kept job d n adv
      → suc n ≤ 15
      → is_noted k adv ≡ false
      → Kept job d
          (suc n)
          (drop (length (adv ++ ((k, e) ∷ [])) - advertised_cap) (adv ++ ((k, e) ∷ [])))
  Kept-note_new h room new =
      let after = h.after ++ ((k, e) ∷ []) in
      let tail = (job, d) ∷ after in
      let m = length (adv ++ ((k, e) ∷ [])) - advertised_cap in
      let whole =
        ap (λ (l : Advertised). l ++ ((k, e) ∷ [])) h.split
        ∙ append_assoc h.before ((job, d) ∷ h.after) ((k, e) ∷ []) in
      let size = ap length h.split ∙ length-append h.before ((job, d) ∷ h.after) in
      let size' = length-append adv ((k, e) ∷ []) in
      let small = h.fits in
      let little = h.few in
      record {
        before = drop m h.before;
        after = after;
        split = ap (drop m) whole ∙ drop-append_le m h.before tail (omega (arith, size, size'));
        last = is_noted_more job h.after k e h.last (bytes_eq_comm k job ∙ job_is_other h new);
        few = omega (arith, length-append h.after ((k, e) ∷ []));
        fits =
            omega (arith, size, size', length-append h.after ((k, e) ∷ []), length-drop m h.before);
      }

  Kept-note : Kept job d n adv → suc n ≤ 15 → Kept job d (suc n) (note_advertised k e adv)
  unfolding note_advertised
  Kept-note h room = elim (Bool-cases (is_noted k adv)) [
    | inl q ↦
        let few = h.few in
        rw q (record {
          before = h.before;
          after = h.after;
          split = h.split;
          last = h.last;
          few = omega (arith, few);
          fits = h.fits;
        })
    | inr q ↦ rw q (Kept-note_new h room q)
  ]

Kept-note_all :
    (job : Bytes) (d n : ℕ) (served : List (Bytes × ℕ)) (adv : Advertised)
    → Kept job d n adv
    → n + length served ≤ 15
    → Kept job d (n + length served) (note_all served adv)
unfolding note_all
Kept-note_all job d n [] adv h room = subst (λ m. Kept job d m adv) (omega arith) h
Kept-note_all job d n ((j, e) ∷ served) adv h room =
    subst (λ m. Kept job d m (note_all served (note_advertised j e adv))) (omega arith)
      (Kept-note_all job d (suc n) served (note_advertised j e adv)
        (Kept-note job d n adv j e h (omega arith)) (omega arith))

Kept-note_self :
    (job : Bytes) (d : ℕ) (adv : Advertised)
    → length adv ≤ advertised_cap
    → is_noted job adv ≡ false
    → Kept job d 0 (note_advertised job d adv)
unfolding note_advertised
Kept-note_self job d adv h new =
    let m = length (adv ++ ((job, d) ∷ [])) - advertised_cap in
    let size = length-append adv ((job, d) ∷ []) in
    rw new (record {
      before = drop m adv;
      after = [];
      split = drop-append_le m adv ((job, d) ∷ []) (omega (arith, size));
      last = refl;
      few = omega arith;
      fits = omega (arith, size, length-drop m adv);
    })

-- A job keeps the difficulty that it was first served at while the next 15 jobs are served, and
-- however often it is served again at another difficulty among them. The ring is within its cap, and
-- the job is not in it when it is first served.
pub difficulty_kept :
    (job : Bytes) (d : ℕ) (served : List (Bytes × ℕ)) (adv : Advertised)
    → length adv ≤ advertised_cap
    → is_noted job adv ≡ false
    → length served ≤ 15
    → advertised_diff job (note_all served (note_advertised job d adv)) ≡ some d
difficulty_kept job d served adv h new few =
    Kept-advertised_diff job d (0 + length served) (note_all served (note_advertised job d adv)) (
      Kept-note_all job d 0 served (note_advertised job d adv) (Kept-note_self job d adv h new)
        (omega (arith, few)))
