-- ===== src/CrossroadsOracle/Source.antt =====
-- crates/crossroads-oracle/src/source.rs: the committee of nodes, and what it must agree on. What one
-- call to a node gives is a parameter, `ask`. A release build wraps its sums at 64 bits.
pub mod Tips
pub mod Hashes
pub mod Fits
pub mod Backed
use cr_faucet.Common.{
  ℕ, suc, zero, ◌+◌, ◌*◌, ◌-◌, ◌%◌, ◌^◌, Bool, true, false, ◌&&◌, not, Option, none, some, List, [],
  ◌∷◌, Bytes, bytes_eq, ◌==◌, ltb, leb, if◌then◌else◌, length, ◌⊎◌, inl, inr,
}
use cr_faucet.Common.Results.{Result, ok, err, ◌>>=◌, ◌>>◌}
use cr_faucet.StratumProxy.Session.{to_digit}

-- What the calls name a block by.
pub data BlockTag : Type 0 where
  latest finalized : BlockTag
  numbered : ℕ → BlockTag

-- The fields of a block that are read, where they are texts.
pub record Block : Type 0 where
  pub number : Option Bytes
  pub hash : Option Bytes

-- The answer of a member.
pub record Vote : Type 0 where
  pub tip : Option ℕ
  pub finalized_number : Option ℕ
  pub block_hash : Option Bytes

pub record Confirmed : Type 0 where
  pub block_hash : Bytes
  pub quorum_tip : ℕ
  pub observed_confirmations : ℕ
  pub observed_quorum : ℕ
  pub finalized_block_number : ℕ

pub data Refusal : Type 0 where
  no_tip unconfirmed no_finality not_final no_hash : Refusal
  -- The index of `tips` is out of bounds: the task panics.
  panic : Refusal

abbrev pub word : ℕ
word = 2 ^ 64

-- `u64::from_str_radix(_, 16)`
unfoldable pub digits : ℕ → Bytes → Option ℕ
digits acc [] = some acc
digits acc (c ∷ cs) = elim (to_digit c) [
  | none ↦ none
  | some d ↦ let rest = digits (acc * 16 + d) cs in if ltb (acc * 16 + d) word then rest else none
]

unfoldable pub from_str_radix : Bytes → Option ℕ
from_str_radix [] = none
from_str_radix (c ∷ []) = digits 0 (c ∷ [])
from_str_radix (c ∷ d ∷ cs) = if c == b'+' then digits 0 (d ∷ cs) else digits 0 (c ∷ d ∷ cs)

unfoldable pub parse_u64_hex : Bytes → Option ℕ
parse_u64_hex [] = none
parse_u64_hex (_ ∷ []) = none
parse_u64_hex (z ∷ x ∷ s) = if z == b'0' && x == b'x' then from_str_radix s else none

abbrev pub number_of : Option Block → Option ℕ
number_of none = none
number_of (some b) = elim b.number [ none ↦ none | some s ↦ parse_u64_hex s ]

-- `parse_hash` is the reading of 32 bytes in hexadecimal.
abbrev pub hash_of : (Bytes → Option Bytes) → Option Block → Option Bytes
hash_of parse_hash none = none
hash_of parse_hash (some b) = elim b.hash [ none ↦ none | some s ↦ parse_hash s ]

unfoldable pub poll_member :
    (Bytes → Option Bytes) → (Bytes → BlockTag → Option Block) → Bytes → ℕ → Bool → Vote
poll_member parse_hash ask url block_number want_finalized = record {
  tip = number_of (ask url latest);
  finalized_number = if want_finalized then number_of (ask url finalized) else none;
  block_hash = hash_of parse_hash (ask url (numbered block_number));
}

unfoldable pub poll_members :
    (Bytes → Option Bytes) → (Bytes → BlockTag → Option Block) → List Bytes → ℕ → Bool → List Vote
poll_members parse_hash ask [] block_number want_finalized = []
poll_members parse_hash ask (url ∷ urls) block_number want_finalized =
    poll_member parse_hash ask url block_number want_finalized
    ∷ poll_members parse_hash ask urls block_number want_finalized

-- `filter_map`
unfoldable pub present {ℓ κ} : {A : Type ℓ} {B : Type κ} → (A → Option B) → List A → List B
present f [] = []
present f (v ∷ vs) = elim (f v) [ none ↦ present f vs | some b ↦ b ∷ present f vs ]

-- From high to low.
unfoldable pub insert_down : ℕ → List ℕ → List ℕ
insert_down t [] = t ∷ []
insert_down t (u ∷ us) = if leb u t then t ∷ u ∷ us else u ∷ insert_down t us

unfoldable pub sort_down : List ℕ → List ℕ
sort_down [] = []
sort_down (t ∷ ts) = insert_down t (sort_down ts)

abbrev pub get : List ℕ → ℕ → Option ℕ
get [] i = none
get (x ∷ xs) zero = some x
get (x ∷ xs) (suc i) = get xs i

-- `tips[quorum - 1]`: at a quorum of zero the index wraps, and is out of bounds.
unfoldable pub at_quorum : List ℕ → ℕ → Result Refusal (Option ℕ)
at_quorum tips zero = err panic
at_quorum tips (suc i) = elim (get tips i) [ none ↦ err panic | some t ↦ ok (some t) ]

unfoldable pub quorum_tip : List ℕ → ℕ → Result Refusal (Option ℕ)
quorum_tip tips quorum =
    if ltb (length tips) quorum then ok none else at_quorum (sort_down tips) quorum

-- An entry of `counts`.
pub record Count : Type 0 where
  pub value : Bytes
  pub votes : ℕ

unfoldable pub add_vote : Bytes → List Count → List Count
add_vote v [] = record { value = v; votes = 1 } ∷ []
add_vote v (e ∷ es) =
    if bytes_eq e.value v then record e { votes = e.votes + 1 } ∷ es else e ∷ add_vote v es

unfoldable pub count_votes : List Count → List Bytes → List Count
count_votes counts [] = counts
count_votes counts (v ∷ vs) = count_votes (add_vote v counts) vs

-- `max_by_key`: the last of the greatest.
unfoldable pub max_by_votes : Count → List Count → Count
max_by_votes best [] = best
max_by_votes best (e ∷ es) = max_by_votes (if leb best.votes e.votes then e else best) es

abbrev pub if_quorum : ℕ → Count → Option Count
if_quorum quorum e = if leb quorum e.votes then some e else none

abbrev pub most_voted : List Count → ℕ → Option Count
most_voted [] quorum = none
most_voted (e ∷ es) quorum = if_quorum quorum (max_by_votes e es)

-- `order` is the order in which the hash map gives its entries.
unfoldable pub quorum_hash : (List Count → List Count) → List Bytes → ℕ → Option Count
quorum_hash order votes quorum = most_voted (order (count_votes [] votes)) quorum

abbrev pub or_refuse {ℓ} : {A : Type ℓ} → Refusal → Option A → Result Refusal A
or_refuse e none = err e
or_refuse e (some a) = ok a

abbrev pub unless {ℓ} : {A : Type ℓ} → Bool → Refusal → A → Result Refusal A
unless true e a = err e
unless false e a = ok a

-- The tip that a quorum has reached, if there is one, and it is not below `least`.
unfoldable pub tip_from : Refusal → Refusal → List ℕ → ℕ → ℕ → Result Refusal ℕ
tip_from missing below tips quorum least = quorum_tip tips quorum >>= λ found.
    or_refuse missing found >>= λ reached. unless (ltb reached least) below reached

unfoldable pub finality : List Vote → ℕ → ℕ → Bool → Result Refusal ℕ
finality votes quorum block_number mandate_finalized =
    if mandate_finalized
    then tip_from no_finality not_final (present (λ v. v.finalized_number) votes) quorum
        block_number
    else ok 0

-- What `fetch_confirmed` does with the answers.
unfoldable pub confirm_votes :
    (List Count → List Count) → List Vote → ℕ → ℕ → ℕ → Bool → Result Refusal Confirmed
confirm_votes order votes quorum block_number min_confirmations mandate_finalized =
    tip_from no_tip unconfirmed (present (λ v. v.tip) votes) quorum
      ((block_number + min_confirmations) % word)
    >>= λ tip. finality votes quorum block_number mandate_finalized >>= λ f.
        or_refuse no_hash (quorum_hash order (present (λ v. v.block_hash) votes) quorum) >>= λ e.
        ok (record {
          block_hash = e.value;
          quorum_tip = tip;
          observed_confirmations = (tip + word - block_number) % word;
          observed_quorum = e.votes;
          finalized_block_number = f;
        })

unfoldable pub fetch_confirmed :
    (Bytes → Option Bytes)
    → (List Count → List Count)
    → (Bytes → BlockTag → Option Block)
    → List Bytes
    → ℕ
    → ℕ
    → ℕ
    → Bool
    → Result Refusal Confirmed
fetch_confirmed parse_hash order ask urls quorum block_number min_confirmations mandate_finalized =
    confirm_votes order (poll_members parse_hash ask urls block_number mandate_finalized) quorum
      block_number min_confirmations mandate_finalized
