-- ===== src/Tests/Reports.antt =====
-- Runs of crates/crossroads-oracle/src/server.rs and ssrf.rs.
use cr_faucet.Common.{
  ℕ, ◌≡◌, true, false, if◌then◌else◌, Option, none, some, Bytes, bytes_eq, List, [], ◌∷◌, refl,
  arith,
}
use cr_faucet.Common.Dict.{lookup}
use cr_faucet.Common.Results.{ok, err}
use cr_faucet.CrossroadsOracle.Source.{
  Block, BlockTag, Confirmed, Count, digits, from_str_radix, parse_u64_hex, poll_member,
  poll_members, present, insert_down, sort_down, at_quorum, quorum_tip, add_vote, count_votes,
  max_by_votes, quorum_hash, tip_from, finality, confirm_votes, fetch_confirmed,
}
use cr_faucet.CrossroadsOracle.Source.Backed.{Backed}
use cr_faucet.CrossroadsOracle.Ssrf.{
  IpAddr, v4, v6, Url, http, is_global, is_global_v4, is_global_v6, to_ipv4, all_global,
  check_addresses, check_host, check_url, assert_public_url,
}
use cr_faucet.CrossroadsOracle.Server.{
  Settings, Contract, OracleInfo, few_urls, safe_urls, vet, oracle_info, report_of, report_for,
}
use cr_faucet.CrossroadsOracle.Server.Vetted.{Vetted, IsVetted, report_for_lem}
use cr_faucet.StratumProxy.Session.{to_digit}

abbrev ipv4 : ℕ → ℕ → ℕ → ℕ → IpAddr
ipv4 a b c d = v4 (record { a = a; b = b; c = c; d = d })

metadata : is_global (ipv4 169 254 169 254) ≡ false
unfolding is_global is_global_v4
metadata = refl

nameserver : is_global (ipv4 8 8 8 8) ≡ true
unfolding is_global is_global_v4
nameserver = refl

-- ::ffff:10.0.0.1
mapped :
    is_global
      (v6 (record { s0 = 0; s1 = 0; s2 = 0; s3 = 0; s4 = 0; s5 = 0xffff; s6 = 0xa00; s7 = 1 }))
    ≡ false
unfolding is_global is_global_v4 is_global_v6 to_ipv4
mapped = refl

abbrev as_found : List Count → List Count
as_found es = es

abbrev as_read : Bytes → Option Bytes
as_read s = some s

abbrev read_url : Bytes → Option Url
read_url s = some (record { scheme = http; host = some s; port = none })

-- The host z is inside.
abbrev resolve : ℕ → Bytes → ℕ → Option (List IpAddr)
resolve t h p =
    if bytes_eq h (b'z' ∷ []) then some (ipv4 10 0 0 1 ∷ []) else some (ipv4 8 8 8 8 ∷ [])

abbrev settings : Settings
settings = record { registry = 5; max_source_rpcs = 3; report_ttl_secs = 60; signer_epoch = 2 }

abbrev contract : Contract
contract = record {
  registry = 5;
  expected_source_chain_id = 1;
  min_confirmations = 14;
  mandate_finalized = false;
  source_rpc_urls = (b'a' ∷ []) ∷ (b'z' ∷ []) ∷ (b'b' ∷ []) ∷ (b'c' ∷ []) ∷ [];
  source_rpc_quorum = 2;
}

abbrev vetted : OracleInfo
vetted = record {
  source_chain_id = 1;
  min_confirmations = 14;
  mandate_finalized = false;
  rpc_urls = (b'a' ∷ []) ∷ (b'b' ∷ []) ∷ [];
  quorum = 2;
}

reads : (oracle_info read_url (resolve 9) settings (some contract) 7 []).0 ≡ ok vetted
unfolding oracle_info vet safe_urls assert_public_url check_url check_host check_addresses
    all_global is_global is_global_v4 bytes_eq lookup
reads = refl

too_few :
    (oracle_info read_url
      (resolve 9)
      settings
      (some (record contract { source_rpc_quorum = 3 }))
      7
      []).0
    ≡ err few_urls
unfolding oracle_info vet safe_urls assert_public_url check_url check_host check_addresses
    all_global is_global is_global_v4 bytes_eq lookup
too_few = refl

abbrev chain : Bytes → BlockTag → Option Block
chain url tag =
    some (record { number = some (b'0' ∷ b'x' ∷ b'2' ∷ b'f' ∷ []); hash = some (77 ∷ []) })

abbrev block_33 : Confirmed
block_33 = record {
  block_hash = 77 ∷ [];
  quorum_tip = 47;
  observed_confirmations = 14;
  observed_quorum = 2;
  finalized_block_number = 0;
}

reports :
    report_for as_read as_found chain settings 1_000 33 (ok vetted)
    ≡ ok (report_of settings 1_000 33 vetted block_33)
unfolding report_for fetch_confirmed confirm_votes poll_members poll_member parse_u64_hex
    from_str_radix digits to_digit tip_from quorum_tip at_quorum present sort_down insert_down
    finality quorum_hash count_votes add_vote max_by_votes bytes_eq
reports = refl

report_for_lem_example :
    IsVetted read_url resolve settings
      (oracle_info read_url (resolve 9) settings (some contract) 7 []).1
    × Vetted read_url resolve settings vetted
    × ((c : Confirmed) × (report_of settings 1_000 33 vetted block_33
          ≡ report_of settings 1_000 33 vetted c)
        × Backed (poll_members as_read chain vetted.rpc_urls 33 false) 2 33 14 false c)
report_for_lem_example =
    report_for_lem read_url resolve settings as_read as_found chain 9 1_000 33 7 (some contract) []
      vetted (report_of settings 1_000 33 vetted block_33) (λ P es a. a) tt reads (omega arith)
      reports
