-- ===== src/PpsRate/Quorum/Heights.antt =====
-- The heights that decide_quorum of crates/pps-rate/src/lib.rs goes through.
use cr_faucet.Common.{ℕ, ◌<◌, ◌≡◌, ◌⊎◌, List, [], ◌∷◌, ◌==◌, ltb, All, arith, inl, inr, Bool-cases}
use cr_faucet.PpsRate.Quorum.{Bucket, insert_height, heights_of}
use cr_faucet.PpsRate.Quorum.Tally.{IsIn, Falls, count_at}

insert_height-All :
    (m h : ℕ) (hs : List ℕ) → h < m → All (λ k. k < m) hs → All (λ k. k < m) (insert_height h hs)
unfolding insert_height
insert_height-All m h [] p a = (p, tt)
insert_height-All m h (k ∷ hs) p a = ground (arith, insert_height-All m h hs p a.1)

All-weaken : (m n : ℕ) (hs : List ℕ) → m < n → All (λ k. k < m) hs → All (λ k. k < n) hs
All-weaken m n [] p a = tt
All-weaken m n (k ∷ hs) p a = (omega (arith, p, a.0), All-weaken m n hs p a.1)

insert_height-Falls : (h : ℕ) (hs : List ℕ) → Falls hs → Falls (insert_height h hs)
unfolding insert_height
insert_height-Falls h [] f = (tt, tt)
insert_height-Falls h (k ∷ hs) f = elim (Bool-cases (k == h)) [
  | inl q ↦ rw q f
  | inr q ↦ rw q (elim (Bool-cases (ltb k h)) [
    | inl r ↦ rw r ((ground arith, All-weaken k h hs (ground arith) f.0), f)
    | inr r ↦ rw r (insert_height-All k h hs (ground arith) f.0, insert_height-Falls h hs f.1)
  ])
]

pub heights_of-Falls : (bs : List Bucket) → Falls (heights_of bs)
unfolding heights_of
heights_of-Falls [] = tt
heights_of-Falls (b ∷ bs) = insert_height-Falls b.height (heights_of bs) (heights_of-Falls bs)

insert_height-IsIn : (h x : ℕ) (hs : List ℕ) → (x ≡ h) ⊎ IsIn x hs → IsIn x (insert_height h hs)
unfolding insert_height
insert_height-IsIn h x [] i = ground arith
insert_height-IsIn h x (k ∷ hs) i = ground (arith, insert_height-IsIn h x hs)

pub heights_of-IsIn : (h d : ℕ) (bs : List Bucket) → 0 < count_at h d bs → IsIn h (heights_of bs)
unfolding heights_of
heights_of-IsIn h d [] p = absurd (omega (arith, p))
heights_of-IsIn h d (b ∷ bs) p =
    insert_height-IsIn b.height h (heights_of bs) (ground (arith, p, heights_of-IsIn h d bs))
