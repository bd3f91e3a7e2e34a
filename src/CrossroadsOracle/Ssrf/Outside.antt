-- ===== src/CrossroadsOracle/Ssrf/Outside.antt =====
-- The addresses that crates/crossroads-oracle/src/ssrf.rs lets through, by the ranges that they are not in.
use cr_faucet.Common.{
  ℕ, ◌<◌, ◌≡◌, ◌≢◌, ◌⊎◌, true, Option, none, some, List, [], ◌∷◌, ◌++◌, Bytes, bytes_eq,
  eq_of_bytes_eq, length, All, refl, subst, arith, inl, inr, Bool-cases, Option-cases,
}
use cr_faucet.Common.Results.{ok}
use cr_faucet.CrossroadsOracle.Ssrf.{
  Ipv4, Ipv6, IpAddr, v4, v6, Url, is_global_v4, to_ipv4, is_global_v6, is_global, all_global, http,
  port_or, check_addresses, check_host, check_url, assert_public_url,
}

-- Outside 0/8, 10/8, 127/8, 100.64/10, 169.254/16, 172.16/12, 192.168/16, 192.0.2/24, 198.51.100/24,
-- 203.0.113/24 and 224/3.
abbrev pub Outside4 : Ipv4 → Type 0
Outside4 o =
    (0 < o.a)
    × (o.a < 224)
    × (o.a ≢ 10)
    × (o.a ≢ 127)
    × (o.a ≡ 100 → (o.b < 64) ⊎ (127 < o.b))
    × (o.a ≡ 169 → o.b ≢ 254)
    × (o.a ≡ 172 → (o.b < 16) ⊎ (31 < o.b))
    × (o.a ≡ 192 → o.b ≢ 168)
    × (o.a ≡ 192 → o.b ≡ 0 → o.c ≢ 2)
    × (o.a ≡ 198 → o.b ≡ 51 → o.c ≢ 100)
    × (o.a ≡ 203 → o.b ≡ 0 → o.c ≢ 113)

-- An address that holds an IPv4 address is outside if that one is; another is outside ::1 and ::, fc00::/7,
-- fe80::/10 and ff00::/8.
abbrev pub Outside6 : Ipv6 → Type 0
Outside6 s =
    ((o : Ipv4) → to_ipv4 s ≡ some o → Outside4 o)
    × (to_ipv4 s ≡ none
        → ((s.s0 < 0xfc00) ⊎ (0xfdff < s.s0))
          × ((s.s0 < 0xfe80) ⊎ (0xfebf < s.s0))
          × ((s.s0 < 0xff00) ⊎ (0xffff < s.s0)))

abbrev pub IsOutside : IpAddr → Type 0
IsOutside (v4 o) = Outside4 o
IsOutside (v6 s) = Outside6 s

is_global_v4-Outside4 : (o : Ipv4) → is_global_v4 o ≡ true → Outside4 o
unfolding is_global_v4
is_global_v4-Outside4 o h = (
  ground arith,
  ground arith,
  ground arith,
  ground arith,
  ground arith,
  ground arith,
  ground arith,
  ground arith,
  ground arith,
  ground arith,
  ground arith,
)

is_global_v6-Outside6 : (s : Ipv6) → is_global_v6 s ≡ true → Outside6 s
unfolding is_global_v6
is_global_v6-Outside6 s h = elim (Option-cases (to_ipv4 s)) [
  | inl q ↦ ((λ o e. cc), λ e. (ground arith, ground arith, ground arith))
  | inr o ↦ (
    (λ p e.
        let same : o.0 ≡ p = cc in subst Outside4 same (is_global_v4-Outside4 o.0 (grind arith))),
    λ e. cc,
  )
]

is_global-IsOutside : (ip : IpAddr) → is_global ip ≡ true → IsOutside ip
unfolding is_global
is_global-IsOutside (v4 o) h = is_global_v4-Outside4 o h
is_global-IsOutside (v6 s) h = is_global_v6-Outside6 s h

all_global-All : (ips : List IpAddr) → all_global ips ≡ true → All IsOutside ips
unfolding all_global
all_global-All [] h = tt
all_global-All (ip ∷ ips) h =
    (is_global-IsOutside ip (ground arith), all_global-All ips (ground arith))

-- A URL of the web whose host led, by this resolver, to an address, and to none inside.
abbrev pub LeadsOutside : (Bytes → Option Url) → (Bytes → ℕ → Option (List IpAddr)) → Bytes → Type 0
LeadsOutside parse lookup_host raw =
    (u : Url) × (host : Bytes) × (ips : List IpAddr) × (parse raw ≡ some u)
    × ((u.scheme ≡ http) ⊎ (u.scheme ≡ http ++ (b's' ∷ [])))
    × (u.host ≡ some host)
    × (lookup_host host (port_or u.port) ≡ some ips)
    × (0 < length ips)
    × All IsOutside ips

check_addresses-ok :
    (o : Option (List IpAddr))
    → check_addresses o ≡ ok tt
    → (ips : List IpAddr) × (o ≡ some ips) × (0 < length ips) × All IsOutside ips
unfolding check_addresses
check_addresses-ok none h = cc
check_addresses-ok (some []) h = cc
check_addresses-ok (some (ip ∷ ips)) h = elim (Bool-cases (all_global (ip ∷ ips))) [
  | inl q ↦ (ip ∷ ips, refl, omega arith, all_global-All (ip ∷ ips) q)
  | inr q ↦ grind arith
]

check_host-ok :
    (lookup_host : Bytes → ℕ → Option (List IpAddr)) (port : Option ℕ) (o : Option Bytes)
    → check_host lookup_host port o ≡ ok tt
    → (host : Bytes) × (o ≡ some host) × (check_addresses (lookup_host host (port_or port)) ≡ ok tt)
unfolding check_host
check_host-ok lookup_host port none h = cc
check_host-ok lookup_host port (some host) h = (host, refl, h)

check_url-ok :
    (lookup_host : Bytes → ℕ → Option (List IpAddr)) (o : Option Url)
    → check_url lookup_host o ≡ ok tt
    → (u : Url) × (o ≡ some u)
      × ((u.scheme ≡ http) ⊎ (u.scheme ≡ http ++ (b's' ∷ [])))
      × (check_host lookup_host u.port u.host ≡ ok tt)
unfolding check_url
check_url-ok lookup_host none h = cc
check_url-ok lookup_host (some u) h =
    let https = http ++ (b's' ∷ []) in
    elim (Bool-cases (bytes_eq u.scheme http)) [
      | inl q ↦ (u, refl, inl (eq_of_bytes_eq u.scheme http q), grind arith)
      | inr q ↦ elim (Bool-cases (bytes_eq u.scheme https)) [
        | inl r ↦ (u, refl, inr (eq_of_bytes_eq u.scheme https r), grind arith)
        | inr r ↦ grind arith
      ]
    ]

pub assert_public_url-LeadsOutside :
    (parse : Bytes → Option Url) (lookup_host : Bytes → ℕ → Option (List IpAddr)) (raw : Bytes)
    → assert_public_url parse lookup_host raw ≡ ok tt
    → LeadsOutside parse lookup_host raw
unfolding assert_public_url
assert_public_url-LeadsOutside parse lookup_host raw h =
    let (u, read, web, e) = check_url-ok lookup_host (parse raw) h in
    let (host, named, f) = check_host-ok lookup_host u.port u.host e in
    let (ips, found, some_ip, out) = check_addresses-ok (lookup_host host (port_or u.port)) f in
    (u, host, ips, read, web, named, found, some_ip, out)
