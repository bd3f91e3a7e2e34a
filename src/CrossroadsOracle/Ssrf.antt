-- ===== src/CrossroadsOracle/Ssrf.antt =====
-- crates/crossroads-oracle/src/ssrf.rs: which URLs of a stranger's oracle may be asked. The reading of a
-- URL and the resolver are parameters. A test `x & mask == y` on leading bits is written as a division.
pub mod Outside
use cr_faucet.Common.{
  ℕ, ◌/◌, ◌%◌, ◌++◌, Bool, true, ◌&&◌, ◌||◌, not, Option, none, some, List, [], ◌∷◌, Bytes,
  bytes_eq, ◌==◌, leb, if◌then◌else◌,
}
use cr_faucet.Common.Results.{Result, ok, err}

pub record Ipv4 : Type 0 where
  pub a : ℕ
  pub b : ℕ
  pub c : ℕ
  pub d : ℕ

pub record Ipv6 : Type 0 where
  pub s0 : ℕ
  pub s1 : ℕ
  pub s2 : ℕ
  pub s3 : ℕ
  pub s4 : ℕ
  pub s5 : ℕ
  pub s6 : ℕ
  pub s7 : ℕ

pub data IpAddr : Type 0 where
  v4 : Ipv4 → IpAddr
  v6 : Ipv6 → IpAddr

-- What is read of a URL: its scheme, its host and the port, or the one that the scheme has.
pub record Url : Type 0 where
  pub scheme : Bytes
  pub host : Option Bytes
  pub port : Option ℕ

pub data Blocked : Type 0 where
  bad_url bad_scheme no_host lookup_failed not_global unresolved : Blocked

abbrev pub is_private : Ipv4 → Bool
is_private o = o.a == 10 || (o.a == 172 && leb 16 o.b && leb o.b 31) || (o.a == 192 && o.b == 168)

abbrev pub is_documentation : Ipv4 → Bool
is_documentation o =
    (o.a == 192 && o.b == 0 && o.c == 2)
    || (o.a == 198 && o.b == 51 && o.c == 100)
    || (o.a == 203 && o.b == 0 && o.c == 113)

abbrev pub is_broadcast : Ipv4 → Bool
is_broadcast o = o.a == 255 && o.b == 255 && o.c == 255 && o.d == 255

abbrev pub is_unspecified : Ipv4 → Bool
is_unspecified o = o.a == 0 && o.b == 0 && o.c == 0 && o.d == 0

unfoldable pub is_global_v4 : Ipv4 → Bool
is_global_v4 o = not (
    is_private o
    || o.a == 127
    || (o.a == 169 && o.b == 254)
    || is_broadcast o
    || is_documentation o
    || is_unspecified o
    || (leb 224 o.a && leb o.a 239)
    || o.a == 0
    || (o.a == 100 && (o.b / 64) == 1)
    || leb 240 o.a)

-- `to_ipv4`: an address that is mapped, or compatible.
unfoldable pub to_ipv4 : Ipv6 → Option Ipv4
to_ipv4 s =
    if s.s0 == 0
      && s.s1 == 0
      && s.s2 == 0
      && s.s3 == 0
      && s.s4 == 0
      && (s.s5 == 0 || s.s5 == 0xffff)
    then some (record { a = s.s6 / 256; b = s.s6 % 256; c = s.s7 / 256; d = s.s7 % 256 })
    else none

abbrev pub is_zero_but_last : Ipv6 → Bool
is_zero_but_last s =
    s.s0 == 0 && s.s1 == 0 && s.s2 == 0 && s.s3 == 0 && s.s4 == 0 && s.s5 == 0 && s.s6 == 0

unfoldable pub is_global_v6 : Ipv6 → Bool
is_global_v6 s = elim (to_ipv4 s) [
  | some o ↦ is_global_v4 o
  | none ↦ not (
      (is_zero_but_last s && s.s7 == 1)
      || (is_zero_but_last s && s.s7 == 0)
      || (s.s0 / 256) == 255
      || (s.s0 / 512) == 126
      || (s.s0 / 64) == 1018)
]

unfoldable pub is_global : IpAddr → Bool
is_global (v4 o) = is_global_v4 o
is_global (v6 s) = is_global_v6 s

unfoldable pub all_global : List IpAddr → Bool
all_global [] = true
all_global (ip ∷ ips) = is_global ip && all_global ips

abbrev pub http : Bytes
http = b'h' ∷ b't' ∷ b't' ∷ b'p' ∷ []

abbrev pub port_or : Option ℕ → ℕ
port_or none = 443
port_or (some p) = p

unfoldable pub check_addresses : Option (List IpAddr) → Result Blocked (Unit {0})
check_addresses none = err lookup_failed
check_addresses (some []) = err unresolved
check_addresses (some (ip ∷ ips)) = if all_global (ip ∷ ips) then ok tt else err not_global

unfoldable pub check_host :
    (Bytes → ℕ → Option (List IpAddr)) → Option ℕ → Option Bytes → Result Blocked (Unit {0})
check_host lookup_host port none = err no_host
check_host lookup_host port (some h) = check_addresses (lookup_host h (port_or port))

unfoldable pub check_url :
    (Bytes → ℕ → Option (List IpAddr)) → Option Url → Result Blocked (Unit {0})
check_url lookup_host none = err bad_url
check_url lookup_host (some u) =
    if bytes_eq u.scheme http || bytes_eq u.scheme (http ++ (b's' ∷ []))
    then check_host lookup_host u.port u.host
    else err bad_scheme

unfoldable pub assert_public_url :
    (Bytes → Option Url) → (Bytes → ℕ → Option (List IpAddr)) → Bytes → Result Blocked (Unit {0})
assert_public_url parse lookup_host raw = check_url lookup_host (parse raw)
