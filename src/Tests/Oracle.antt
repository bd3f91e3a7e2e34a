-- ===== src/Tests/Oracle.antt =====
-- Runs of crates/crossroads-oracle/src/source.rs.
use cr_faucet.Common.{
  ◌≡◌, true, if◌then◌else◌, Option, none, some, Bytes, bytes_eq, List, [], ◌∷◌, refl, arith,
}
use cr_faucet.Common.Results.{ok, err}
use cr_faucet.CrossroadsOracle.Source.{
  Block, BlockTag, latest, finalized, numbered, Confirmed, Count, panic, unconfirmed, digits,
  from_str_radix, parse_u64_hex, poll_member, poll_members, present, insert_down, sort_down,
  at_quorum, quorum_tip, add_vote, count_votes, max_by_votes, quorum_hash, tip_from, finality,
  confirm_votes, fetch_confirmed,
}
use cr_faucet.StratumProxy.Session.{to_digit}
use cr_faucet.CrossroadsOracle.Source.Backed.{Backed, fetch_confirmed-Backed}

abbrev as_found : List Count → List Count
as_found es = es

abbrev as_read : Bytes → Option Bytes
as_read s = some s

abbrev members : List Bytes
members = (b'a' ∷ []) ∷ (b'b' ∷ []) ∷ (b'c' ∷ []) ∷ []

abbrev a_block : Bytes → Bytes → Option Block
a_block number hash = some (record { number = some (b'0' ∷ b'x' ∷ number); hash = some hash })

-- a and b agree, c is on another chain and does not answer for finality. They are at 0x2f and 0x2e.
abbrev committee : Bytes → BlockTag → Option Block
committee url latest =
    if bytes_eq url (b'a' ∷ [])
    then a_block (b'2' ∷ b'f' ∷ []) []
    else a_block (b'2' ∷ b'E' ∷ []) []
committee url finalized = if bytes_eq url (b'c' ∷ []) then none else a_block (b'2' ∷ b'0' ∷ []) []
committee url (numbered n) =
    if bytes_eq url (b'c' ∷ []) then a_block [] (66 ∷ []) else a_block [] (77 ∷ [])

abbrev block_32 : Confirmed
block_32 = record {
  block_hash = 77 ∷ [];
  quorum_tip = 46;
  observed_confirmations = 14;
  observed_quorum = 2;
  finalized_block_number = 32;
}

confirms : fetch_confirmed as_read as_found committee members 2 32 14 true ≡ ok block_32
unfolding fetch_confirmed confirm_votes poll_members poll_member parse_u64_hex from_str_radix digits
    to_digit tip_from quorum_tip at_quorum present sort_down insert_down finality quorum_hash
    count_votes add_vote max_by_votes bytes_eq
confirms = refl

too_new : fetch_confirmed as_read as_found committee members 2 32 15 true ≡ err unconfirmed
unfolding fetch_confirmed confirm_votes poll_members poll_member parse_u64_hex from_str_radix digits
    to_digit tip_from quorum_tip at_quorum present sort_down insert_down finality quorum_hash
    count_votes add_vote max_by_votes bytes_eq
too_new = refl

-- A quorum of zero, which an oracle's contract may give, indexes out of bounds.
no_quorum_panics : fetch_confirmed as_read as_found committee members 0 32 14 true ≡ err panic
unfolding fetch_confirmed confirm_votes poll_members poll_member parse_u64_hex from_str_radix digits
    to_digit tip_from quorum_tip at_quorum present sort_down insert_down finality quorum_hash
    count_votes add_vote max_by_votes bytes_eq
no_quorum_panics = refl

fetch_confirmed-Backed_example :
    Backed (poll_members as_read committee members 32 true) 2 32 14 true block_32
fetch_confirmed-Backed_example =
    fetch_confirmed-Backed as_read as_found committee members 2 32 14 true block_32 (λ P es a. a)
      (omega arith) confirms
