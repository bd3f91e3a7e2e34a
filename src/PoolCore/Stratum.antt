-- ===== src/PoolCore/Stratum.antt =====
-- crates/pool-core/src/stratum.rs: a difficulty as the target that a miner is given. The encoding and
-- decoding of hexadecimal texts belong to a library and are parameters.
pub mod Targets
use cr_faucet.Common.{
  ℕ, zero, suc, ◌+◌, ◌*◌, ◌-◌, ◌/◌, ◌%◌, ◌^◌, ◌==◌, Option, none, some, List, [], ◌∷◌, Bytes,
  length, if◌then◌else◌, max,
}
use cr_faucet.Common.Results.{Result, ok, err}

-- `to_le_bytes` of an integer of so many bytes.
unfoldable pub to_le_bytes : ℕ → ℕ → Bytes
to_le_bytes zero n = []
to_le_bytes (suc k) n = (n % 256) ∷ to_le_bytes k (n / 256)

abbrev pub u32_max : ℕ
u32_max = 2 ^ 32 - 1

unfoldable pub target_of : ℕ → ℕ
target_of difficulty = if difficulty == 0 then u32_max else u32_max / difficulty

unfoldable pub diff_to_target_hex : (Bytes → Bytes) → ℕ → Bytes
diff_to_target_hex encode difficulty = encode (to_le_bytes 4 (target_of difficulty))

unfoldable pub from_le_bytes : Bytes → ℕ
from_le_bytes [] = 0
from_le_bytes (b ∷ bs) = b + 256 * from_le_bytes bs

pub data FromHexError : Type 0 where
  undecodable invalid_string_length : FromHexError

unfoldable pub diff_of : ℕ → ℕ
diff_of target = if target == 0 then 2 ^ 64 - 1 else u32_max / max target 1

abbrev pub diff_decoded : Option Bytes → Result FromHexError ℕ
diff_decoded none = err undecodable
diff_decoded (some bytes) =
    if length bytes == 4
    then ok (diff_of (from_le_bytes bytes))
    else if length bytes == 8
    then ok (diff_of (from_le_bytes bytes))
    else err invalid_string_length

unfoldable pub target_hex_to_diff : (Bytes → Option Bytes) → Bytes → Result FromHexError ℕ
target_hex_to_diff decode target_hex = diff_decoded (decode target_hex)
