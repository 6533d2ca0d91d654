-- ===== src/Egress.antt =====
-- egress/policy.go: which addresses, hosts and endpoints the agent may talk to.
-- Texts are lists of code points. A `netip.Addr` is its number; `Prefix.Contains` matches no address
-- with a zone. Go's parsers of addresses and URLs, the printer of addresses and the Unicode table of
-- lower-case letters are the record `Network`, an argument of what uses them.
pub mod Addresses
pub mod Hosts
mod Examples
use backupchief_agent.Base.{
  ℕ, zero, suc, ◌+◌, ◌-◌, ◌*◌, ◌/◌, ◌%◌, ◌^◌, Bool, true, false, not, ◌&&◌, ◌||◌, List, [], ◌∷◌,
  ◌++◌, Option, none, some, leb, ltb, ◌==◌, if◌then◌else◌, map, length, Text, chars, is_blank,
  same_text, has_char, has_prefix, ends_with, split, all,
}
use mathlib.Core.List.{reverse}

pub record Target : Type 0 where
  pub host : Text
  pub port : ℕ

-- `netip.Addr`: the zero value, a number of 32 bits, or one of 128 bits with a zone.
pub data Addr : Type 0 where
  no_addr : Addr
  v4 : ℕ → Addr
  v6 : ℕ → Text → Addr

-- `netip.Prefix`: the bits behind the prefix, and the bits of the prefix.
pub data Prefix : Type 0 where
  prefix4 : ℕ → ℕ → Prefix
  prefix6 : ℕ → ℕ → Prefix

abbrev pub dotted : ℕ → ℕ → ℕ → ℕ → ℕ
dotted a b c d = ((a * 256 + b) * 256 + c) * 256 + d

-- A prefix of IPv4 by its address and its length, and one of IPv6 by its first two groups.
abbrev pub cidr4 : ℕ → ℕ → Prefix
cidr4 address bits = prefix4 (32 - bits) (address / 2 ^ (32 - bits))

abbrev pub cidr6 : ℕ → ℕ → ℕ → Prefix
cidr6 first second bits =
    prefix6 (128 - bits) ((first * 65536 + second) * 2 ^ 96 / 2 ^ (128 - bits))

abbrev pub blocked_networks : List Prefix
blocked_networks =
    cidr4 (dotted 0 0 0 0) 8
    ∷ cidr4 (dotted 10 0 0 0) 8
    ∷ cidr4 (dotted 100 64 0 0) 10
    ∷ cidr4 (dotted 127 0 0 0) 8
    ∷ cidr4 (dotted 169 254 0 0) 16
    ∷ cidr4 (dotted 172 16 0 0) 12
    ∷ cidr4 (dotted 192 0 0 0) 24
    ∷ cidr4 (dotted 192 0 2 0) 24
    ∷ cidr4 (dotted 192 88 99 0) 24
    ∷ cidr4 (dotted 192 168 0 0) 16
    ∷ cidr4 (dotted 198 18 0 0) 15
    ∷ cidr4 (dotted 198 51 100 0) 24
    ∷ cidr4 (dotted 203 0 113 0) 24
    ∷ cidr4 (dotted 224 0 0 0) 3
    ∷ cidr6 0x2001 0 23
    ∷ cidr6 0x2001 0x0db8 32
    ∷ cidr6 0x2002 0 16
    ∷ cidr6 0x3fff 0 20
    ∷ []

abbrev pub public_ipv6_network : Prefix
public_ipv6_network = cidr6 0x2000 0 3

-- `Prefix.Contains`.
unfoldable pub contains : Prefix → Addr → Bool
contains (prefix4 rest bits) (v4 n) = n / 2 ^ rest == bits
contains (prefix4 rest bits) no_addr = false
contains (prefix4 rest bits) (v6 n zone) = false
contains (prefix6 rest bits) (v6 n zone) = is_blank zone && n / 2 ^ rest == bits
contains (prefix6 rest bits) no_addr = false
contains (prefix6 rest bits) (v4 n) = false

-- `Addr.Unmap`.
unfoldable pub unmap : Addr → Addr
unmap (v6 n zone) = if n / 2 ^ 32 == 0xffff then v4 (n % 2 ^ 32) else v6 n zone
unmap no_addr = no_addr
unmap (v4 n) = v4 n

-- `Addr.IsGlobalUnicast`: neither unspecified, nor the broadcast address, nor loopback, nor
-- multicast, nor link-local.
unfoldable pub is_global_unicast : Addr → Bool
is_global_unicast no_addr = false
is_global_unicast (v4 n) =
    not (n == 0)
    && not (n == 4294967295)
    && not (n / 2 ^ 24 == 127)
    && not (n / 2 ^ 28 == 14)
    && not (n / 2 ^ 16 == 43518)
is_global_unicast (v6 n zone) =
    not (n == 0 && is_blank zone)
    && not (n == 1)
    && not (n / 2 ^ 120 == 255)
    && not (n / 2 ^ 118 == 1018)

abbrev pub is_v6 : Addr → Bool
is_v6 (v6 n zone) = true
is_v6 (v4 n) = false
is_v6 no_addr = false

unfoldable pub in_any : List Prefix → Addr → Bool
in_any [] ip = false
in_any (p ∷ ps) ip = contains p ip || in_any ps ip

-- The checks of `Public` on an unmapped address.
unfoldable pub public_unmapped : Addr → Bool
unfolding is_global_unicast in_any contains
public_unmapped ip =
    is_global_unicast ip
    && not (is_v6 ip && not (contains public_ipv6_network ip))
    && not (in_any blocked_networks ip)

-- `Public`.
unfoldable pub public : Addr → Bool
unfolding public_unmapped unmap
public ip = public_unmapped (unmap ip)

pub record Url : Type 0 where
  pub scheme : Text
  pub hostname : Text
  pub url_port : Text
  pub has_user : Bool
  pub raw_query : Text
  pub force_query : Bool
  pub fragment : Text
  pub path : Text
  pub raw_path : Text

pub record Network : Type 0 where
  pub to_lower : ℕ → ℕ
  pub parse_addr : Text → Option Addr
  pub addr_text : Addr → Text
  pub parse_url : Text → Option Url

-- The errors of the policy.
pub data Refusal : Type 0 where
  invalid_hostname not_public invalid_endpoint lookup_failed prohibited_address : Refusal

pub data Result {ℓ} (A : Type ℓ) : Type ℓ where
  ok : A → Result A
  err : Refusal → Result A

-- `unicode.IsSpace`.
abbrev pub is_space : ℕ → Bool
is_space c =
    leb 9 c && leb c 13
    || c == 32
    || c == 0x85
    || c == 0xa0
    || c == 0x1680
    || leb 0x2000 c && leb c 0x200a
    || c == 0x2028
    || c == 0x2029
    || c == 0x202f
    || c == 0x205f
    || c == 0x3000

unfoldable pub drop_spaces : Text → Text
drop_spaces [] = []
drop_spaces (c ∷ cs) = let rest = drop_spaces cs in if is_space c then rest else c ∷ cs

-- `strings.TrimSpace`.
unfoldable pub trim_space : Text → Text
unfolding drop_spaces
trim_space s = reverse (drop_spaces (reverse (drop_spaces s)))

-- `strings.HasSuffix`.
unfoldable pub has_suffix : Text → Text → Bool
unfolding has_prefix
has_suffix s end = has_prefix (reverse s) (reverse end)

-- The characters of a host name.
abbrev pub is_host_char : ℕ → Bool
is_host_char c =
    leb b'a' c && leb c b'z' || leb b'0' c && leb c b'9' || c == b'.' || c == b'-' || c == b':'

-- A label of a host name, of one to 63 characters, with no dash at an end.
abbrev pub is_label : Text → Bool
is_label label =
    not (is_blank label)
    && not (ltb 63 (length label))
    && not (has_prefix label (b'-' ∷ []))
    && not (ends_with b'-' label)

-- The decimal digits of a number below ten to the power of the fuel.
unfoldable pub decimal : ℕ → ℕ → Text → Text
decimal zero n acc = acc
decimal (suc fuel) n acc =
    let digits = (b'0' + n % 10) ∷ acc in
    let more = decimal fuel (n / 10) digits in if ltb n 10 then digits else more

-- `net.JoinHostPort`; a port has five digits at most.
unfoldable pub join_host_port : Text → ℕ → Text
unfolding decimal
join_host_port host port =
    let digits = decimal 5 port [] in
    if has_char b':' host || has_char b'%' host
    then b'[' ∷ (host ++ b']' ∷ b':' ∷ digits)
    else host ++ b':' ∷ digits

-- The host of `Authority` behind the check of its characters.
unfoldable pub canonical_host : Network → Text → Result Text
unfolding public
canonical_host network host = elim (network.parse_addr host) [
  | some ip ↦ if public ip then ok (network.addr_text ip) else err not_public
  | none ↦
      if has_char b':' host
      then err invalid_hostname
      else if all is_label (split b'.' host)
      then ok host
      else err invalid_hostname
]

unfoldable pub with_port : ℕ → Result Text → Result Text
unfolding join_host_port
with_port port (ok host) = ok (join_host_port host port)
with_port port (err e) = err e

-- Hosts that name the machine itself, or nothing.
abbrev pub is_local_name : Text → Bool
is_local_name host =
    is_blank host
    || ends_with b'.' host
    || same_text host (chars "localhost")
    || has_suffix host (chars ".localhost")

-- `Authority`.
unfoldable pub authority : Network → Target → Result Text
authority network target =
    let host = map network.to_lower target.host in
    if not (same_text target.host (trim_space target.host))
    then err invalid_hostname
    else if target.port == 0 || is_local_name host
    then err not_public
    else if all is_host_char host
    then with_port target.port (canonical_host network host)
    else err invalid_hostname

-- The parts of an endpoint that `Endpoint` refuses.
abbrev pub is_plain_https : Url → Bool
is_plain_https url =
    same_text url.scheme (chars "https")
    && not (is_blank url.hostname)
    && not url.has_user
    && is_blank url.raw_query
    && not url.force_query
    && is_blank url.fragment
    && (is_blank url.path || same_text url.path (chars "/"))
    && is_blank url.raw_path
    && (is_blank url.url_port || same_text url.url_port (chars "443"))

-- `Endpoint`: the authority of the endpoint, whose URL has nothing else than it and the scheme.
unfoldable pub endpoint : Network → Text → Result Text
endpoint network raw = elim (network.parse_url raw) [
  | none ↦ err invalid_endpoint
  | some url ↦
      if is_plain_https url
      then elim (authority network (record { host = url.hostname; port = 443 })) [
        | ok host ↦ ok host
        | err e ↦ err not_public
      ]
      else err invalid_endpoint
]

-- `Addresses`, for what the resolver gives: `none` is its error.
unfoldable pub addresses : Option (List Addr) → Result (List Addr)
addresses none = err lookup_failed
addresses (some []) = err lookup_failed
addresses (some (ip ∷ ips)) =
    if all public (ip ∷ ips) then ok (ip ∷ ips) else err prohibited_address
