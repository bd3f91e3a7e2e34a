-- ===== src/MiningPool/Bech32/Bits.antt =====
-- The bytes that bech32_decode of crates/mining-pool/src/single_active.rs gives are the bits of the
-- symbols, in order.
use cr_faucet.Common.{
  ℕ, zero, suc, ◌+◌, ◌-◌, ◌*◌, ◌/◌, ◌%◌, ◌^◌, ◌≤◌, ◌<◌, ◌≡◌, List, [], ◌∷◌, ◌++◌, Bytes, length,
  All, refl, arith, ap, sym, ◌∙◌, Bool-cases, inl, inr, leb, length-append,
}
use mathlib.Core.List.{append_assoc, append-nil}
use cr_faucet.MiningPool.Bech32.{shift_in, regroup}

-- The lowest bits of a number, the highest of them first.
abbrev pub low_bits : ℕ → ℕ → List ℕ
low_bits zero a = []
low_bits (suc n) a = low_bits n (a / 2) ++ ((a % 2) ∷ [])

-- The bits of numbers of so many bits each.
abbrev pub bits_of : ℕ → List ℕ → List ℕ
bits_of n [] = []
bits_of n (a ∷ rest) = low_bits n a ++ bits_of n rest

shr : ℕ → ℕ → ℕ
shr a zero = a
shr a (suc k) = shr (a / 2) k

low_bits-split : (k n a : ℕ) → low_bits (k + n) a ≡ low_bits n (shr a k) ++ low_bits k a
unfolding shr
low_bits-split zero n a =
    let e : zero + n ≡ n = omega arith in ap (λ m. low_bits m a) e ∙ sym (append-nil (low_bits n a))
low_bits-split (suc k) n a =
    let e : suc k + n ≡ suc (k + n) = omega arith in
    ap (λ m. low_bits m a) e
    ∙ (ap (λ l. l ++ ((a % 2) ∷ [])) (low_bits-split k n (a / 2))
        ∙ append_assoc (low_bits n (shr (a / 2) k)) (low_bits k (a / 2)) ((a % 2) ∷ []))

shr_lem : (a k : ℕ) → k ≤ 5 → shr a k ≡ a / 2 ^ k
unfolding shr
shr_lem a zero h = omega arith
shr_lem a (suc zero) h = omega arith
shr_lem a (suc (suc zero)) h = omega arith
shr_lem a (suc (suc (suc zero))) h = omega arith
shr_lem a (suc (suc (suc (suc zero)))) h = omega arith
shr_lem a (suc (suc (suc (suc (suc zero))))) h = omega arith
shr_lem a (suc (suc (suc (suc (suc (suc k)))))) h = absurd (omega (arith, h))

-- `k * 2 ^ n`
mult : ℕ → ℕ → ℕ
mult zero k = k
mult (suc n) k = 2 * mult n k

-- What stands above the lowest bits does not show in them.
low_bits-add : (n m a k : ℕ) → n ≤ m → low_bits n (a + mult m k) ≡ low_bits n a
unfolding mult
low_bits-add zero m a k h = refl
low_bits-add (suc n) zero a k h = absurd (omega (arith, h))
low_bits-add (suc n) (suc m) a k h =
    let half : (a + 2 * mult m k) / 2 ≡ a / 2 + mult m k = omega arith in
    let odd : (a + 2 * mult m k) % 2 ≡ a % 2 = omega arith in
    rw (half, odd, low_bits-add n m (a / 2) k (omega (arith, h))) refl

low_bits-five : (acc v : ℕ) → v < 32 → low_bits 5 (shift_in acc v) ≡ low_bits 5 v
unfolding mult
low_bits-five acc v h =
    let e : shift_in acc v ≡ v + mult 5 (acc % 2 ^ 27) = omega arith in
    ap (low_bits 5) e ∙ low_bits-add 5 5 v (acc % 2 ^ 27) (omega arith)

low_bits-byte : (a : ℕ) → low_bits 8 (a % 256) ≡ low_bits 8 a
unfolding mult
low_bits-byte a =
    let e : a ≡ a % 256 + mult 8 (a / 256) = omega arith in
    sym (ap (low_bits 8) e ∙ low_bits-add 8 8 (a % 256) (a / 256) (omega arith))

low_bits-upper :
    (b acc v : ℕ) → b ≤ 7 → v < 32 → low_bits b (shr (shift_in acc v) 5) ≡ low_bits b acc
unfolding mult
low_bits-upper b acc v h k =
    let e : shift_in acc v / 2 ^ 5 ≡ acc % 2 ^ 27 = omega arith in
    let f : acc ≡ acc % 2 ^ 27 + mult 27 (acc / 2 ^ 27) = omega arith in
    ap (low_bits b) (shr_lem (shift_in acc v) 5 (omega arith) ∙ e)
    ∙ sym (ap (low_bits b) f ∙ low_bits-add b 27 (acc % 2 ^ 27) (acc / 2 ^ 27) (omega arith))

-- A symbol joins the bits that wait.
low_bits-shift_in :
    (b acc v : ℕ)
    → b ≤ 7
    → v < 32
    → low_bits (b + 5) (shift_in acc v) ≡ low_bits b acc ++ low_bits 5 v
low_bits-shift_in b acc v h k =
    let e : b + 5 ≡ 5 + b = omega arith in
    ap (λ n. low_bits n (shift_in acc v)) e
    ∙ (low_bits-split 5 b (shift_in acc v)
        ∙ (ap (λ l. l ++ low_bits 5 (shift_in acc v)) (low_bits-upper b acc v h k)
            ∙ ap (λ l. low_bits b acc ++ l) (low_bits-five acc v k)))

-- A full byte leaves them.
low_bits-push :
    (c x : ℕ) → c ≤ 4 → low_bits (8 + c) x ≡ low_bits 8 (x / 2 ^ c % 256) ++ low_bits c x
low_bits-push c x h =
    let e : 8 + c ≡ c + 8 = omega arith in
    ap (λ n. low_bits n x) e
    ∙ (low_bits-split c 8 x
        ∙ ap (λ l. l ++ low_bits c x)
            (ap (low_bits 8) (shr_lem x c (omega (arith, h))) ∙ sym (low_bits-byte (x / 2 ^ c))))

-- The bytes and what is dropped at the end.
abbrev Regroups : ℕ → ℕ → Bytes → Bytes → Type 0
Regroups acc bits vs out =
    (rest : List ℕ) × (bits_of 8 out ++ rest ≡ low_bits bits acc ++ bits_of 5 vs)
    × (length rest ≤ 7)

length-low_bits : (n a : ℕ) → length (low_bits n a) ≡ n
length-low_bits zero a = refl
length-low_bits (suc n) a =
    omega (arith, length-append (low_bits n (a / 2)) ((a % 2) ∷ []), length-low_bits n (a / 2))

pushed_bits :
    (acc bits v c : ℕ) (vs out : Bytes) (rest : List ℕ)
    → bits + 5 ≡ 8 + c
    → c ≤ 4
    → bits ≤ 7
    → v < 32
    → bits_of 8 out ++ rest ≡ low_bits c (shift_in acc v) ++ bits_of 5 vs
    → (low_bits 8 (shift_in acc v / 2 ^ c % 256) ++ bits_of 8 out) ++ rest
      ≡ low_bits bits acc ++ (low_bits 5 v ++ bits_of 5 vs)
pushed_bits acc bits v c vs out rest size small h k e =
    let x = shift_in acc v in
    let byte = low_bits 8 (x / 2 ^ c % 256) in
    append_assoc byte (bits_of 8 out) rest
    ∙ (ap (λ l. byte ++ l) e
        ∙ (sym (append_assoc byte (low_bits c x) (bits_of 5 vs))
            ∙ (ap (λ l. l ++ bits_of 5 vs)
                  (sym (low_bits-push c x small)
                    ∙ (ap (λ n. low_bits n x) (sym size) ∙ low_bits-shift_in bits acc v h k))
                ∙ append_assoc (low_bits bits acc) (low_bits 5 v) (bits_of 5 vs))))

regroup-Regroups :
    (acc bits : ℕ) (vs : Bytes)
    → bits ≤ 7
    → All (λ v. v < 32) vs
    → Regroups acc bits vs (regroup acc bits vs)
unfolding regroup
regroup-Regroups acc bits [] h all = (
  low_bits bits acc,
  sym (append-nil (low_bits bits acc)),
  omega (arith, length-low_bits bits acc),
)
regroup-Regroups acc bits (v ∷ vs) h all = elim (Bool-cases (leb 8 (bits + 5))) [
  | inl q ↦
      let c = bits + 5 - 8 in
      let x = shift_in acc v in
      let small : c ≤ 4 = omega arith in
      let (rest, e, few) = regroup-Regroups x c vs (omega arith) all.1 in
      let size : bits + 5 ≡ 8 + c = ground arith in
      rw q (rest, pushed_bits acc bits v c vs (regroup x c vs) rest size small h all.0 e, few)
  | inr q ↦
      let x = shift_in acc v in
      let (rest, e, few) = regroup-Regroups x (bits + 5) vs (ground arith) all.1 in
      rw q (
        rest,
        e
            ∙ (ap (λ l. l ++ bits_of 5 vs) (low_bits-shift_in bits acc v h all.0)
                ∙ append_assoc (low_bits bits acc) (low_bits 5 v) (bits_of 5 vs)),
        few,
      )
]

-- The bytes of a decoded text are the bits of its symbols, five each, in their order: at most seven bits
-- are dropped, at the end, and the 32-bit accumulator loses none that is needed. Every symbol is below 32.
pub regroup_bits :
    (five : Bytes)
    → All (λ v. v < 32) five
    → (rest : List ℕ) × (bits_of 8 (regroup 0 0 five) ++ rest ≡ bits_of 5 five) × (length rest ≤ 7)
regroup_bits five all = regroup-Regroups 0 0 five (omega arith) all
