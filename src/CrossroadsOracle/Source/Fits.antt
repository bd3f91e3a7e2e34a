-- ===== src/CrossroadsOracle/Source/Fits.antt =====
-- Block numbers that crates/crossroads-oracle/src/source.rs reads fit 64 bits.
use cr_faucet.Common.{
  ℕ, ◌+◌, ◌*◌, ◌<◌, ◌≡◌, Option, none, some, List, [], ◌∷◌, Bytes, subst, ◌==◌, ◌&&◌, Bool, ltb,
  if◌then◌else◌, refl, arith, inl, inr, Bool-cases, Option-cases,
}
use cr_faucet.StratumProxy.Session.{to_digit}
use cr_faucet.CrossroadsOracle.Source.{
  Block, BlockTag, latest, word, digits, from_str_radix, parse_u64_hex, number_of, poll_member,
  poll_members, present,
}
use cr_faucet.CrossroadsOracle.Source.Tips.{reach}

abbrev Fits : Option ℕ → Type 0
Fits none = Unit
Fits (some n) = n < word

digits-Fits : (acc : ℕ) (cs : Bytes) → acc < word → Fits (digits acc cs)
unfolding digits
digits-Fits acc [] p = p
digits-Fits acc (c ∷ cs) p =
    elim (to_digit c)
      as (λ o. Fits (elim o as (λ _. Option ℕ) [
        | none ↦ none
        | some d ↦ if ltb (acc * 16 + d) word then digits (acc * 16 + d) cs else none
      ])) [
        | none ↦ tt
        | some d ↦ elim (Bool-cases (ltb (acc * 16 + d) word)) [
          | inl q ↦ rw q (digits-Fits (acc * 16 + d) cs (ground arith))
          | inr q ↦ rw q tt
        ]
      ]

from_str_radix-Fits : (s : Bytes) → Fits (from_str_radix s)
unfolding from_str_radix
from_str_radix-Fits [] = tt
from_str_radix-Fits (c ∷ []) = digits-Fits 0 (c ∷ []) (omega arith)
from_str_radix-Fits (c ∷ d ∷ cs) = elim (Bool-cases (c == b'+')) [
  | inl q ↦ rw q (digits-Fits 0 (d ∷ cs) (omega arith))
  | inr q ↦ rw q (digits-Fits 0 (c ∷ d ∷ cs) (omega arith))
]

parse_u64_hex-Fits : (s : Bytes) → Fits (parse_u64_hex s)
unfolding parse_u64_hex
parse_u64_hex-Fits [] = tt
parse_u64_hex-Fits (_ ∷ []) = tt
parse_u64_hex-Fits (z ∷ x ∷ s) = elim (Bool-cases (z == b'0' && x == b'x')) [
  | inl q ↦ rw q (from_str_radix-Fits s)
  | inr q ↦ rw q tt
]

number_of-Fits : (b : Option Block) → Fits (number_of b)
number_of-Fits none = tt
number_of-Fits (some b) = elim (Option-cases b.number) [
  | inl q ↦ rw q tt
  | inr s ↦ rw s.1 (parse_u64_hex-Fits s.0)
]

module _ (parse_hash : Bytes → Option Bytes) (ask : Bytes → BlockTag → Option Block) (n : ℕ)
    (mandate : Bool) where
  pub tips_fit :
      (urls : List Bytes)
      → reach word (present (λ v. v.tip) (poll_members parse_hash ask urls n mandate)) ≡ 0
  unfolding poll_members poll_member present
  tips_fit [] = refl
  tips_fit (u ∷ urls) = elim (Option-cases (number_of (ask u latest))) [
    | inl q ↦ rw q (tips_fit urls)
    | inr s ↦
        let fits : Fits (some s.0) = subst Fits s.1 (number_of-Fits (ask u latest)) in
        rw s.1 (ground (arith, fits, tips_fit urls))
  ]
