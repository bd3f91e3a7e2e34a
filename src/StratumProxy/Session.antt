-- ===== src/StratumProxy/Session.antt =====
-- crates/stratum-proxy/src/session.rs, with crates/stratum-proxy/src/sample.rs and the messages of
-- crates/stratum-proxy/src/protocol.rs: what a connection keeps, what its messages do to it and to the
-- services, and what is sent back.
pub mod Advertised
pub mod Nonce
pub mod Parts
pub mod Handler
pub mod Effects
pub mod Credit
pub mod Loop
pub mod Rule
pub mod Serving
pub mod Gauge
pub mod Calm
pub mod Once
use cr_faucet.Common.{
  ℕ, ◌+◌, ◌-◌, ◌*◌, ◌/◌, ◌%◌, Bool, true, false, not, ◌||◌, ◌&&◌, Option, none, some, List, [], ◌∷◌,
  ◌++◌, Bytes, bytes_eq, ltb, leb, length, take, drop, any, if◌then◌else◌, ◌==◌,
}
use cr_faucet.StratumProxy.Share.{nonce_offset, nonce_len}

-- The jobs that were served, with the difficulty that each was served at; the latest last.
abbrev pub Advertised : Type 0
Advertised = List (Bytes × ℕ)

abbrev pub advertised_cap : ℕ
advertised_cap = 16

abbrev pub is_noted : Bytes → Advertised → Bool
is_noted job_id = any λ (p : Bytes × ℕ). bytes_eq p.0 job_id

-- The first difficulty of a job stays; the oldest entries leave.
unfoldable pub note_advertised : Bytes → ℕ → Advertised → Advertised
note_advertised job_id diff adv =
    let grown = adv ++ ((job_id, diff) ∷ []) in
    if is_noted job_id adv then adv else drop (length grown - advertised_cap) grown

abbrev pub later : Option ℕ → Option ℕ → Option ℕ
later none here = here
later (some d) here = some d

-- The search from the back.
unfoldable pub advertised_diff : Bytes → Advertised → Option ℕ
advertised_diff job_id [] = none
advertised_diff job_id ((j, d) ∷ adv) =
    later (advertised_diff job_id adv) (if bytes_eq j job_id then some d else none)

-- The hexadecimal digits that `format!("{:02x}")` writes.
abbrev pub hex_digit : ℕ → ℕ
hex_digit n = if ltb n 10 then b'0' + n else b'a' + (n - 10)

abbrev pub hex_byte : ℕ → Bytes
hex_byte b = hex_digit (b / 16) ∷ hex_digit (b % 16) ∷ []

-- `WORKER_SEQ.fetch_add(1)` on an `AtomicU8`: the byte of the connection, and the counter after it.
unfoldable pub next_worker : ℕ → ℕ × ℕ
next_worker seq = (seq, (seq + 1) % 256)

-- Where the high byte of the nonce stands in the text of a blob.
abbrev pub nonce_hi_hex : ℕ
nonce_hi_hex = (nonce_offset + nonce_len - 1) * 2

-- Whether a text, a list of UTF-8 bytes, can be cut at an index: `is_char_boundary`.
abbrev pub starts_char : Bytes → Bool
starts_char [] = true
starts_char (b ∷ _) = not (leb 128 b && ltb b 192)

abbrev pub is_char_boundary : Bytes → ℕ → Bool
is_char_boundary s i = starts_char (drop i s)

-- `none` is the panic of `replace_range` inside a character.
unfoldable pub stamp_worker_byte : Bytes → ℕ → Option Bytes
stamp_worker_byte blob_hex worker_byte =
    if ltb (length blob_hex) (nonce_hi_hex + 2)
    then some blob_hex
    else if is_char_boundary blob_hex nonce_hi_hex && is_char_boundary blob_hex (nonce_hi_hex + 2)
    then some
        (take nonce_hi_hex blob_hex ++ (hex_byte worker_byte ++ drop (nonce_hi_hex + 2) blob_hex))
    else none

-- `char::to_digit(16)`
unfoldable pub to_digit : ℕ → Option ℕ
to_digit c =
    if leb b'0' c && leb c b'9'
    then some (c - b'0')
    else if leb b'a' c && leb c b'f'
    then some (c - b'a' + 10)
    else if leb b'A' c && leb c b'F'
    then some (c - b'A' + 10)
    else none

abbrev pub byte_of : Option ℕ → Option ℕ → Option ℕ
byte_of (some a) (some b) = some (16 * a + b)
byte_of none _ = none
byte_of (some a) none = none

-- `u8::from_str_radix(_, 16)` on two characters; it also takes a plus sign and one digit.
unfoldable pub parse_byte : Bytes → Option ℕ
parse_byte (a ∷ b ∷ []) = if a == b'+' then to_digit b else byte_of (to_digit a) (to_digit b)
parse_byte _ = none

-- The outer `none` is the panic of a slice that starts inside a character.
unfoldable pub nonce_high_byte : Bytes → Option (Option ℕ)
nonce_high_byte nonce_hex =
    if length nonce_hex == nonce_len * 2
    then if is_char_boundary nonce_hex ((nonce_len - 1) * 2)
      then some (parse_byte (drop ((nonce_len - 1) * 2) nonce_hex))
      else none
    else some none
