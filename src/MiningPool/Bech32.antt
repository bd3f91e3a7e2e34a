-- ===== src/MiningPool/Bech32.antt =====
-- bech32_decode of crates/mining-pool/src/single_active.rs, which reads the application's own id. The
-- text is trimmed.
pub mod Bits
use cr_faucet.Common.{
  ℕ, zero, suc, ◌+◌, ◌-◌, ◌*◌, ◌/◌, ◌%◌, ◌^◌, Bool, Option, none, some, List, [], ◌∷◌, ◌++◌, Bytes,
  map, ltb, leb, ◌==◌, length, take, if◌then◌else◌, ◌≡◌, ◌≤◌, ◌<◌, refl, arith, ap, sym, ◌∙◌,
}
use cr_faucet.Common.Results.{Result, ok, err}
use cr_faucet.StratumProxy.Jobs.{to_lower}

pub data BechError : Type 0 where
  missing_separator bad_char too_short : BechError

-- "qpzry9x8gf2tvdw0s3jn54khce6mua7l"
abbrev pub charset : Bytes
charset =
    b'q' ∷ b'p' ∷ b'z' ∷ b'r' ∷ b'y' ∷ b'9' ∷ b'x' ∷ b'8' ∷ b'g' ∷ b'f' ∷ b'2' ∷ b't' ∷ b'v' ∷ b'd'
    ∷ b'w' ∷ b'0' ∷ b's' ∷ b'3' ∷ b'j' ∷ b'n' ∷ b'5' ∷ b'4' ∷ b'k' ∷ b'h' ∷ b'c' ∷ b'e' ∷ b'6'
    ∷ b'm' ∷ b'u' ∷ b'a' ∷ b'7' ∷ b'l' ∷ []

-- `position`
unfoldable pub position : ℕ → ℕ → Bytes → Option ℕ
position c i [] = none
position c i (x ∷ xs) = if x == c then some i else position c (i + 1) xs

abbrev pub in_front : ℕ → Option (Bytes × Bytes) → Option (Bytes × Bytes)
in_front c none = none
in_front c (some (hrp, rest)) = some (c ∷ hrp, rest)

abbrev pub or_split : Option (Bytes × Bytes) → Option (Bytes × Bytes) → Option (Bytes × Bytes)
or_split (some p) here = some p
or_split none here = here

-- `rfind('1')`: the text before the last separator, and the text after it.
unfoldable pub split_last : Bytes → Option (Bytes × Bytes)
split_last [] = none
split_last (c ∷ s) = or_split (in_front c (split_last s)) (if c == b'1' then some ([], s) else none)

abbrev pub cons_value : Option ℕ → Result BechError Bytes → Result BechError Bytes
cons_value none _ = err bad_char
cons_value (some v) (err e) = err e
cons_value (some v) (ok vs) = ok (v ∷ vs)

unfoldable pub values_of : Bytes → Result BechError Bytes
values_of [] = ok []
values_of (c ∷ s) = cons_value (position (to_lower c) 0 charset) (values_of s)

-- `(acc << 5) | v` on a `u32`; `v` is below 32.
abbrev pub shift_in : ℕ → ℕ → ℕ
shift_in acc v = acc * 32 % 2 ^ 32 + v

-- The groups of five bits as bytes; bits that are left at the end are dropped.
unfoldable pub regroup : ℕ → ℕ → Bytes → Bytes
regroup acc bits [] = []
regroup acc bits (v ∷ vs) =
    let acc' = shift_in acc v in
    if leb 8 (bits + 5)
    then (acc' / 2 ^ (bits + 5 - 8) % 256) ∷ regroup acc' (bits + 5 - 8) vs
    else regroup acc' (bits + 5) vs

abbrev pub checked : Bytes → Result BechError Bytes → Result BechError (Bytes × Bytes)
checked hrp (err e) = err e
checked hrp (ok vals) =
    if ltb (length vals) 6
    then err too_short
    else ok (map to_lower hrp, regroup 0 0 (take (length vals - 6) vals))

abbrev pub split_checked : Option (Bytes × Bytes) → Result BechError (Bytes × Bytes)
split_checked none = err missing_separator
split_checked (some (hrp, rest)) = checked hrp (values_of rest)

unfoldable pub bech32_decode : Bytes → Result BechError (Bytes × Bytes)
unfolding position split_last values_of regroup
bech32_decode s = split_checked (split_last s)
