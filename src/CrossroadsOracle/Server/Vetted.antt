-- ===== src/CrossroadsOracle/Server/Vetted.antt =====
-- What stands behind a report of crates/crossroads-oracle/src/server.rs.
use cr_faucet.Common.{
  ℕ, suc, ◌+◌, ◌-◌, ◌≤◌, ◌<◌, ◌≡◌, Option, none, some, List, [], ◌∷◌, Bytes, ◌==◌, ltb, length,
  take, length-take, All, refl, subst, arith, inl, inr, Bool-cases,
}
use cr_faucet.Common.Dict.{Dict, lookup, insert}
use cr_faucet.Common.Results.{Result, ok, err}
use cr_faucet.CrossroadsOracle.Source.{
  Confirmed, Count, Block, BlockTag, Refusal, word, fetch_confirmed, poll_members,
}
use cr_faucet.CrossroadsOracle.Source.Hashes.{AddsNone}
use cr_faucet.CrossroadsOracle.Source.Backed.{Backed, fetch_confirmed-Backed}
use cr_faucet.CrossroadsOracle.Ssrf.{Url, IpAddr, Blocked, assert_public_url}
use cr_faucet.CrossroadsOracle.Ssrf.Outside.{LeadsOutside, assert_public_url-LeadsOutside}
use cr_faucet.CrossroadsOracle.Server.{
  Settings, Contract, OracleInfo, BlockHashReport, Failure, safe_urls, keep_safe, enough, vet,
  cached, keep, oracle_info, report_of, report_on, report_for, u64_or,
}

length-keep_safe :
    (r : Result Blocked (Unit {0})) (u : Bytes) (safe : List Bytes)
    → length (keep_safe r u safe) ≤ suc (length safe)
length-keep_safe (ok t) u safe = omega arith
length-keep_safe (err e) u safe = omega arith

keep_safe-All :
    (P : Bytes → Type 0) (r : Result Blocked (Unit {0})) (u : Bytes) (safe : List Bytes)
    → (r ≡ ok tt → P u)
    → All P safe
    → All P (keep_safe r u safe)
keep_safe-All P (ok t) u safe p a = (p refl, a)
keep_safe-All P (err e) u safe p a = a

-- `hosts` is the resolver at each time.
module _ (parse : Bytes → Option Url) (hosts : ℕ → Bytes → ℕ → Option (List IpAddr))
    (s : Settings) where
  -- At some time the URL led to addresses, and to none inside.
  abbrev pub WasPublic : Bytes → Type 0
  WasPublic u = (t : ℕ) × LeadsOutside parse (hosts t) u

  abbrev pub Vetted : OracleInfo → Type 0
  Vetted info =
      All WasPublic info.rpc_urls
      × (info.quorum ≤ length info.rpc_urls)
      × (length info.rpc_urls ≤ s.max_source_rpcs)

  abbrev pub IsVetted : Dict OracleInfo → Type 0
  IsVetted cache = All (λ e. Vetted e.1) cache

  safe_urls-WasPublic : (t : ℕ) (urls : List Bytes) → All WasPublic (safe_urls parse (hosts t) urls)
  unfolding safe_urls
  safe_urls-WasPublic t [] = tt
  safe_urls-WasPublic t (u ∷ urls) =
      keep_safe-All WasPublic (assert_public_url parse (hosts t) u) u
        (safe_urls parse (hosts t) urls)
        (λ e. (t, assert_public_url-LeadsOutside parse (hosts t) u e)) (safe_urls-WasPublic t urls)

  length-safe_urls :
      (t : ℕ) (urls : List Bytes) → length (safe_urls parse (hosts t) urls) ≤ length urls
  unfolding safe_urls
  length-safe_urls t [] = omega arith
  length-safe_urls t (u ∷ urls) =
      let safe = safe_urls parse (hosts t) urls in
      omega (
        arith,
        length-keep_safe (assert_public_url parse (hosts t) u) u safe,
        length-safe_urls t urls,
      )

  enough-Vetted :
      (t : ℕ) (c : Contract) (quorum : ℕ) (urls : List Bytes) (info : OracleInfo)
      → length urls ≤ s.max_source_rpcs
      → enough parse (hosts t) c quorum (safe_urls parse (hosts t) urls) ≡ ok info
      → Vetted info
  enough-Vetted t c quorum urls info most h =
      let safe = safe_urls parse (hosts t) urls in
      elim (Bool-cases (ltb (length safe) quorum)) [
        | inl q ↦ grind arith
        | inr q ↦
            let made : OracleInfo = record {
              source_chain_id = u64_or 0 c.expected_source_chain_id;
              min_confirmations = u64_or 0 c.min_confirmations;
              mandate_finalized = c.mandate_finalized;
              rpc_urls = safe;
              quorum = quorum;
            } in
            let e : made ≡ info = grind arith in
            let short : length safe ≤ s.max_source_rpcs =
              omega (arith, most, length-safe_urls t urls) in
            let many : quorum ≤ length safe = ground arith in
            let v : Vetted made = (safe_urls-WasPublic t urls, many, short) in subst Vetted e v
      ]

  vet-Vetted :
      (t : ℕ) (contract : Option Contract) (info : OracleInfo)
      → vet parse (hosts t) s contract ≡ ok info
      → Vetted info
  unfolding vet
  vet-Vetted t none info h = cc
  vet-Vetted t (some c) info h = elim (Bool-cases (c.registry == s.registry)) [
    | inl q ↦
        enough-Vetted t c (u64_or (word - 1) c.source_rpc_quorum)
          (take s.max_source_rpcs c.source_rpc_urls) info
          (omega (arith, length-take s.max_source_rpcs c.source_rpc_urls)) (grind arith)
    | inr q ↦ grind arith
  ]

  lookup-Vetted :
      (oracle : ℕ) (cache : Dict OracleInfo) (info : OracleInfo)
      → IsVetted cache
      → lookup oracle cache ≡ some info
      → Vetted info
  unfolding lookup
  lookup-Vetted oracle [] info v h = cc
  lookup-Vetted oracle ((k, i) ∷ cache) info v h = elim (Bool-cases (k == oracle)) [
    | inl q ↦ let e : i ≡ info = grind arith in subst Vetted e v.0
    | inr q ↦ lookup-Vetted oracle cache info v.1 (grind arith)
  ]

  insert-IsVetted :
      (oracle : ℕ) (info : OracleInfo) (cache : Dict OracleInfo)
      → Vetted info
      → IsVetted cache
      → IsVetted (insert oracle info cache)
  unfolding insert
  insert-IsVetted oracle info [] i v = (i, tt)
  insert-IsVetted oracle info ((k, j) ∷ cache) i v = elim (Bool-cases (k == oracle)) [
    | inl q ↦ rw q (i, v.1)
    | inr q ↦ rw q (v.0, insert-IsVetted oracle info cache i v.1)
  ]

  keep-IsVetted :
      (oracle : ℕ) (cache : Dict OracleInfo) (r : Result Failure OracleInfo) (info : OracleInfo)
      → ((i : OracleInfo) → r ≡ ok i → Vetted i)
      → IsVetted cache
      → (keep oracle cache r).0 ≡ ok info
      → IsVetted (keep oracle cache r).1 × Vetted info
  keep-IsVetted oracle cache (err e) info f v h = cc
  keep-IsVetted oracle cache (ok i) info f v h =
      (insert-IsVetted oracle i cache (f i refl) v, f info h)

  cached-IsVetted :
      (t : ℕ) (contract : Option Contract) (oracle : ℕ) (cache : Dict OracleInfo)
      (o : Option OracleInfo) (info : OracleInfo)
      → ((i : OracleInfo) → o ≡ some i → Vetted i)
      → IsVetted cache
      → (cached parse (hosts t) s contract oracle cache o).0 ≡ ok info
      → IsVetted (cached parse (hosts t) s contract oracle cache o).1 × Vetted info
  cached-IsVetted t contract oracle cache none info f v h =
      keep-IsVetted oracle cache (vet parse (hosts t) s contract) info (vet-Vetted t contract) v h
  cached-IsVetted t contract oracle cache (some i) info f v h =
      let e : i ≡ info = cc in (v, subst Vetted e (f i refl))

  oracle_info-IsVetted :
      (t : ℕ) (contract : Option Contract) (oracle : ℕ) (cache : Dict OracleInfo)
      (info : OracleInfo)
      → IsVetted cache
      → (oracle_info parse (hosts t) s contract oracle cache).0 ≡ ok info
      → IsVetted (oracle_info parse (hosts t) s contract oracle cache).1 × Vetted info
  unfolding oracle_info
  oracle_info-IsVetted t contract oracle cache info v h =
      cached-IsVetted t contract oracle cache (lookup oracle cache) info
        (λ i e. lookup-Vetted oracle cache i v e) v h

module _ (parse_hash : Bytes → Option Bytes) (order : List Count → List Count)
    (ask : Bytes → BlockTag → Option Block) where
  report_on-ok :
      (s : Settings) (now n : ℕ) (info : OracleInfo) (r : Result Refusal Confirmed)
      (rep : BlockHashReport)
      → report_on parse_hash order ask s now n info r ≡ ok rep
      → (c : Confirmed) × (r ≡ ok c) × (rep ≡ report_of s now n info c)
  report_on-ok s now n info (ok c) rep h = (c, refl, cc)
  report_on-ok s now n info (err e) rep h = cc

-- A report is made only for an oracle whose configuration was vetted: each URL that is asked is http or
-- https, and when the configuration was read its host led to addresses, none of them private, loopback,
-- link-local, shared, for documentation, multicast or reserved as the ranges of `IsOutside` say; there are
-- no more URLs than the server allows, and a quorum of what they answer, of at least one, stands behind
-- the block. What the cache keeps stays vetted. The height with the confirmations fits 64 bits, and the
-- order of the hash map adds no entry.
pub report_for_lem :
    (parse : Bytes → Option Url) (hosts : ℕ → Bytes → ℕ → Option (List IpAddr)) (s : Settings)
    (parse_hash : Bytes → Option Bytes) (order : List Count → List Count)
    (ask : Bytes → BlockTag → Option Block) (t now n oracle : ℕ) (contract : Option Contract)
    (cache : Dict OracleInfo) (info : OracleInfo) (rep : BlockHashReport)
    → AddsNone order
    → IsVetted parse hosts s cache
    → (oracle_info parse (hosts t) s contract oracle cache).0 ≡ ok info
    → n + info.min_confirmations < word
    → report_for parse_hash order ask s now n (ok info) ≡ ok rep
    → IsVetted parse hosts s (oracle_info parse (hosts t) s contract oracle cache).1
      × Vetted parse hosts s info
      × ((c : Confirmed) × (rep ≡ report_of s now n info c)
          × Backed
              (poll_members parse_hash ask info.rpc_urls n info.mandate_finalized)
              info.quorum
              n
              info.min_confirmations
              info.mandate_finalized
              c)
unfolding report_for
report_for_lem parse hosts s parse_hash order ask t now n oracle contract cache info rep adds v got
      sum_fits h =
    let vetted = oracle_info-IsVetted parse hosts s t contract oracle cache info v got in
    let asked =
      fetch_confirmed parse_hash order ask info.rpc_urls info.quorum n info.min_confirmations
        info.mandate_finalized in
    let found = report_on-ok parse_hash order ask s now n info asked rep h in
    (
      vetted.0,
      vetted.1,
      (
        found.0,
        found.2,
        fetch_confirmed-Backed parse_hash order ask info.rpc_urls info.quorum n
            info.min_confirmations info.mandate_finalized found.0 adds sum_fits found.1,
      ),
    )
