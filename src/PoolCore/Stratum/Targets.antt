-- ===== src/PoolCore/Stratum/Targets.antt =====
-- Targets of crates/pool-core/src/stratum.rs: what a difficulty becomes on the way to a miner and back.
use cr_faucet.Common.{
  ℕ, ◌+◌, ◌*◌, ◌-◌, ◌/◌, ◌^◌, ◌≤◌, ◌<◌, ◌≡◌, ◌==◌, Option, some, Bytes, refl, arith, ap, ◌∙◌, sym,
  max, false,
}
use native.Mathlib.Nat.{
  le-div_iff_mul-le, div-lt_iff_lt-mul, mul-div-le, lt-mul-div-succ, div-eq_of_lt, div-le_self,
  mul-le-mul_right,
}
use cr_faucet.Common.Results.{ok}
use cr_faucet.PoolCore.Stratum.{
  to_le_bytes, u32_max, target_of, diff_to_target_hex, from_le_bytes, diff_of, diff_decoded,
  target_hex_to_diff,
}

from_le_bytes-to_le_bytes : (n : ℕ) → n < 2 ^ 32 → from_le_bytes (to_le_bytes 4 n) ≡ n
unfolding from_le_bytes to_le_bytes
from_le_bytes-to_le_bytes n h = omega arith

target_of-lt : (d : ℕ) → target_of d < 2 ^ 32
unfolding target_of
target_of-lt d = ground (arith, div-le_self u32_max d)

-- Halfway there and back: the quotient of the quotient is no less, and has the same quotient.
module _ (m d : ℕ) (pos : 0 < d) (le : d ≤ m) where
  quotient_pos : 0 < m / d
  quotient_pos = let f = le-div_iff_mul-le {k = d} {x = 1} {y = m} pos in f.1 (omega arith)

  le-back : d ≤ m / (m / d)
  le-back =
      let f = le-div_iff_mul-le {k = m / d} {x = d} {y = m} quotient_pos in f.1 (mul-div-le m d)

  back_pos : 0 < m / (m / d)
  back_pos = omega (arith, le-back)

  quotient_back : m / (m / (m / d)) ≡ m / d
  quotient_back =
      let f = le-div_iff_mul-le {k = m / (m / d)} {x = m / d} {y = m} back_pos in
      let g = div-lt_iff_lt-mul {k = m / (m / d)} {x = m} {y = m / d + 1} back_pos in
      let lo = f.1 (mul-div-le m (m / d)) in
      let grows : d * (m / d + 1) ≤ m / (m / d) * (m / d + 1) =
        mul-le-mul_right (m / d + 1) le-back in
      let hi = g.1 (omega (arith, lt-mul-div-succ m pos, grows)) in omega (arith, lo, hi)

diff_decoded-to_le_bytes :
    (t : ℕ) → t < 2 ^ 32 → diff_decoded (some (to_le_bytes 4 t)) ≡ ok (diff_of t)
unfolding to_le_bytes
diff_decoded-to_le_bytes t h = ap (λ n. ok (diff_of n)) (from_le_bytes-to_le_bytes t h)

target_of-pos : (d : ℕ) → 0 < d → target_of d ≡ u32_max / d
unfolding target_of
target_of-pos d h = ground arith

diff_of-pos : (t : ℕ) → 0 < t → diff_of t ≡ u32_max / t
unfolding diff_of
diff_of-pos t h =
    let one : max t 1 ≡ t = omega arith in
    let some_target : t == 0 ≡ false = ground arith in rw (one, some_target) refl

diff_of_zero : diff_of 0 ≡ 2 ^ 64 - 1
unfolding diff_of
diff_of_zero = refl

zero_back : diff_of (target_of 0) ≡ 1
unfolding diff_of target_of
zero_back = refl

back_target : (d : ℕ) → 0 < d → d ≤ u32_max → target_of (diff_of (target_of d)) ≡ target_of d
back_target d pos le =
    ap (λ t. target_of (diff_of t)) (target_of-pos d pos)
    ∙ (ap target_of (diff_of-pos (u32_max / d) (quotient_pos u32_max d pos le))
        ∙ (target_of-pos (u32_max / (u32_max / d)) (back_pos u32_max d pos le)
            ∙ (quotient_back u32_max d pos le ∙ sym (target_of-pos d pos))))

target_pos : (d : ℕ) → 0 < d → d ≤ u32_max → 0 < target_of d
target_pos d pos le = omega (arith, target_of-pos d pos, quotient_pos u32_max d pos le)

target_tight : (d : ℕ) → 0 < d → (target_of d * d ≤ u32_max) × (u32_max < (target_of d + 1) * d)
target_tight d pos = rw (target_of-pos d pos) (omega arith, omega arith)

-- The target of a difficulty that fits 32 bits is not zero and is the largest whose product with the difficulty does, and gives back a difficulty that is no
-- smaller and has the same target, so that a miner who reads it aims at what was asked for; the
-- target of zero reads as one, and that of a difficulty above 32 bits as the highest of all. What is
-- encoded can be decoded.
pub target_roundtrip :
    (encode : Bytes → Bytes) (decode : Bytes → Option Bytes) (d : ℕ)
    → ((b : Bytes) → decode (encode b) ≡ some b)
    → (back : ℕ) × (target_hex_to_diff decode (diff_to_target_hex encode d) ≡ ok back)
      × (0 < d
          → d ≤ u32_max
          → (0 < target_of d)
            × (target_of d * d ≤ u32_max)
            × (u32_max < (target_of d + 1) * d)
            × (d ≤ back)
            × (target_of back ≡ target_of d))
      × (d ≡ 0 → back ≡ 1)
      × (u32_max < d → back ≡ 2 ^ 64 - 1)
unfolding target_hex_to_diff diff_to_target_hex
target_roundtrip encode decode d inverse =
    let t = target_of d in
    (
      diff_of t,
      ap diff_decoded (inverse (to_le_bytes 4 t)) ∙ diff_decoded-to_le_bytes t (target_of-lt d),
      λ pos le. (
        target_pos d pos le,
        (target_tight d pos).0,
        (target_tight d pos).1,
        rw (target_of-pos d pos, diff_of-pos (u32_max / d) (quotient_pos u32_max d pos le))
            (le-back u32_max d pos le),
        back_target d pos le,
      ),
      λ e. rw e zero_back,
      λ far. ap diff_of (target_of-pos d (omega arith) ∙ div-eq_of_lt far) ∙ diff_of_zero,
    )
