-- ===== src/Addr.antt =====
-- conn/addr.go: a target address, which is an IP address or a domain name, with a port.
-- The IP addresses are those of net/netip. What resolves names and what parses the text of an IP
-- address is a parameter.
pub mod Laws
mod Examples
use shadowsocks.Base.{
  ℕ, ◌≤◌, ◌<◌, ◌^◌, Bool, true, false, ◌&&◌, List, [], ◌∷◌, ◌++◌, Option, none, some, ltb, ◌==◌,
  if◌then◌else◌, bytes_eq, length, take, drop, All, ◌≡◌,
}
use shadowsocks.Base.Bytes.{IsBytes}

-- `netip.Addr`: the zero value, an IPv4 address by its 4 bytes, or an IPv6 address by its 16 bytes
-- and its zone.
pub data Ip : Type 0 where
  zero_ip : Ip
  v4 : List ℕ → Ip
  v6 : List ℕ → List ℕ → Ip

abbrev pub IsIp : Ip → Type 0
IsIp zero_ip = Unit
IsIp (v4 b) = (length b ≡ 4) × IsBytes b
IsIp (v6 b zone) = (length b ≡ 16) × IsBytes b

abbrev pub mapped_prefix : List ℕ
mapped_prefix = 0 ∷ 0 ∷ 0 ∷ 0 ∷ 0 ∷ 0 ∷ 0 ∷ 0 ∷ 0 ∷ 0 ∷ 255 ∷ 255 ∷ []

-- `netip.Addr.Is4() || netip.Addr.Is4In6()`
unfoldable pub is_4 : Ip → Bool
is_4 zero_ip = false
is_4 (v4 b) = true
is_4 (v6 b zone) = bytes_eq (take 12 b) mapped_prefix

-- `netip.Addr.As4`, where `Is4` or `Is4In6` holds.
unfoldable pub as_4 : Ip → List ℕ
as_4 zero_ip = []
as_4 (v4 b) = b
as_4 (v6 b zone) = drop 12 b

-- `netip.Addr.As16`
unfoldable pub as_16 : Ip → List ℕ
as_16 zero_ip = 0 ∷ 0 ∷ 0 ∷ 0 ∷ 0 ∷ 0 ∷ 0 ∷ 0 ∷ 0 ∷ 0 ∷ 0 ∷ 0 ∷ 0 ∷ 0 ∷ 0 ∷ 0 ∷ []
as_16 (v4 b) = mapped_prefix ++ b
as_16 (v6 b zone) = b

-- `==` of two `netip.Addr`.
unfoldable pub ip_eq : Ip → Ip → Bool
ip_eq zero_ip zero_ip = true
ip_eq (v4 a) (v4 b) = bytes_eq a b
ip_eq (v6 a y) (v6 b z) = bytes_eq a b && bytes_eq y z
ip_eq _ _ = false

-- `netip.AddrPort`
pub record AddrPort : Type 0 where
  pub ip : Ip
  pub port : ℕ

-- `conn.Addr`, by its address family: the zero value, an IP address or a domain name.
pub data Addr : Type 0 where
  none_addr : Addr
  ip_addr : AddrPort → Addr
  domain_addr : List ℕ → ℕ → Addr

-- The method `Equals`.
pub equals : Addr → Addr → Bool
equals none_addr none_addr = true
equals (ip_addr a) (ip_addr b) = if a.port == b.port then ip_eq a.ip b.ip else false
equals (domain_addr d p) (domain_addr e q) = if p == q then bytes_eq d e else false
equals _ _ = false

unfoldable pub is_valid : Addr → Bool
is_valid none_addr = false
is_valid (ip_addr a) = true
is_valid (domain_addr d p) = true

unfoldable pub is_ip : Addr → Bool
is_ip none_addr = false
is_ip (ip_addr a) = true
is_ip (domain_addr d p) = false

pub is_domain : Addr → Bool
is_domain none_addr = false
is_domain (ip_addr a) = false
is_domain (domain_addr d p) = true

-- The methods `IP`, `Domain` and `IPPort` panic on an address of another family, which is `none`.
unfoldable pub get_ip : Addr → Option Ip
get_ip none_addr = none
get_ip (ip_addr a) = some a.ip
get_ip (domain_addr d p) = none

unfoldable pub get_domain : Addr → Option (List ℕ)
get_domain none_addr = none
get_domain (ip_addr a) = none
get_domain (domain_addr d p) = some d

unfoldable pub get_ip_port : Addr → Option AddrPort
get_ip_port none_addr = none
get_ip_port (ip_addr a) = some a
get_ip_port (domain_addr d p) = none

-- The method `Port`.
unfoldable pub get_port : Addr → ℕ
get_port none_addr = 0
get_port (ip_addr a) = a.port
get_port (domain_addr d p) = p

-- The outcome of a method that resolves a name: a panic, an error, or a value.
pub data Resolved (A : Type 0) : Type 0 where
  panicked failed : Resolved A
  resolved : A → Resolved A

-- The resolver gives the first IP address that it finds, or an error.
module _ (lookup_ip : List ℕ → Option Ip) where
  -- `ResolveIP`
  pub resolve_host : List ℕ → Resolved Ip
  resolve_host host = elim (lookup_ip host) [ none ↦ failed | some ip ↦ resolved ip ]

  -- The method `ResolveIP`.
  pub resolve_ip : Addr → Resolved Ip
  unfolding resolve_host
  resolve_ip none_addr = panicked
  resolve_ip (ip_addr a) = resolved a.ip
  resolve_ip (domain_addr d p) = resolve_host d

  -- The method `ResolveIPPort`.
  pub resolve_ip_port : Addr → Resolved AddrPort
  unfolding resolve_host
  resolve_ip_port none_addr = panicked
  resolve_ip_port (ip_addr a) = resolved a
  resolve_ip_port (domain_addr d p) = elim (resolve_host d) [
    | panicked ↦ panicked
    | failed ↦ failed
    | resolved ip ↦ resolved (record { ip = ip; port = p })
  ]

-- `AddrFromIPPort`
unfoldable pub addr_from_ip_port : AddrPort → Addr
addr_from_ip_port a = ip_addr a

-- `AddrFromDomainPort`; `none` is the error.
unfoldable pub addr_from_domain_port : List ℕ → ℕ → Option Addr
addr_from_domain_port d p =
    if length d == 0 then none else if ltb 255 (length d) then none else some (domain_addr d p)

-- `AddrFromHostPort`, over the parser of IP addresses. An empty host is `::`.
module _ (parse_ip : List ℕ → Option Ip) where
  pub addr_from_host_port : List ℕ → ℕ → Option Addr
  addr_from_host_port host port =
      let host' = if length host == 0 then b':' ∷ b':' ∷ [] else host in
      elim (parse_ip host') [
        | some ip ↦ some (ip_addr (record { ip = ip; port = port }))
        | none ↦ addr_from_domain_port host' port
      ]

-- `AddrPortMappedEqual` compares the 16 bytes that an address is stored in, and the ports.
pub addr_port_mapped_equal : AddrPort → AddrPort → Bool
addr_port_mapped_equal l r = if bytes_eq (as_16 l.ip) (as_16 r.ip) then l.port == r.port else false
