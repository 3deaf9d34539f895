-- ===== src/Router/Config.antt =====
-- `RouteConfig`, and the criteria that `RouteConfig.Route` makes of its parts.
use shadowsocks.Base.{
  ℕ, Bool, true, false, if◌then◌else◌, ◌==◌, leb, List, [], ◌∷◌, Option, none, some,
}
use shadowsocks.BitSet.{BitSet, set_bit}
use shadowsocks.PortSet
use shadowsocks.PortSet.{PortRange, new_port_set, parse, count, first}
use shadowsocks.PortSet.RangeSet.{range_set, range_count}
use shadowsocks.DomainSet.{domain_linear_append_to, set_match}
use shadowsocks.Router.Request.{Resolver, DomainMatch, IpSet, GeoIp}
use shadowsocks.Router.Criteria.{Criterion}

-- `RouteConfig`; a prefix, which netip parses, is of a type of its own.
pub record RouteConfig (Prefix : Type 0) : Type 0 where
  pub name : List ℕ
  pub network : List ℕ
  pub client : List ℕ
  pub resolver : List ℕ
  pub from_servers : List (List ℕ)
  pub from_users : List (List ℕ)
  pub from_ports : List ℕ
  pub from_port_ranges : List ℕ
  pub from_prefixes : List Prefix
  pub from_prefix_sets : List (List ℕ)
  pub from_geoip_countries : List (List ℕ)
  pub to_ports : List ℕ
  pub to_port_ranges : List ℕ
  pub to_domains : List (List ℕ)
  pub to_domain_sets : List (List ℕ)
  pub to_matched_domain_expected_prefixes : List Prefix
  pub to_matched_domain_expected_prefix_sets : List (List ℕ)
  pub to_matched_domain_expected_geoip_countries : List (List ℕ)
  pub to_prefixes : List Prefix
  pub to_prefix_sets : List (List ℕ)
  pub to_geoip_countries : List (List ℕ)
  pub disable_name_resolution_for_ip_rules : Bool
  pub invert_from_servers : Bool
  pub invert_from_users : Bool
  pub invert_from_prefixes : Bool
  pub invert_from_geoip_countries : Bool
  pub invert_from_ports : Bool
  pub invert_to_domains : Bool
  pub invert_to_matched_domain_expected_prefixes : Bool
  pub invert_to_matched_domain_expected_geoip_countries : Bool
  pub invert_to_prefixes : Bool
  pub invert_to_geoip_countries : Bool
  pub invert_to_ports : Bool

-- What `RouteConfig.Route` is given: the GeoIP database, the resolvers, and the maps by name. A map of clients
-- has its client under `only_` when it has one.
pub record Environment : Type 0 where
  pub geoip : GeoIp
  pub resolvers : List Resolver
  pub resolver_map : List ℕ → Option Resolver
  pub tcp_client_map : List ℕ → Option ℕ
  pub udp_client_map : List ℕ → Option ℕ
  pub only_tcp_client : Option ℕ
  pub only_udp_client : Option ℕ
  pub server_index_by_name : List ℕ → Option ℕ
  pub server_count : ℕ
  pub domain_set_map : List ℕ → Option DomainMatch
  pub prefix_set_map : List ℕ → Option IpSet

-- The errors of `RouteConfig.Route` and `Config.Router`.
pub data ConfigError : Type 0 where
  bad_name missing_database missing_resolvers missing_domain_criteria : ConfigError
  resolver_not_found invalid_network tcp_client_not_found udp_client_not_found server_not_found :
      ConfigError
  default_tcp_client_not_found default_udp_client_not_found : ConfigError
  zero_port bad_port_ranges pointless_port_criteria prefix_set_not_found ip_set_failed
        domain_set_not_found :
      ConfigError

-- What is made, an error, or a panic.
pub data Built (A : Type 0) : Type 0 where
  built : A → Built A
  refused : ConfigError → Built A
  crashed : Built A

infixl 5 ◌>>=◌
abbrev pub ◌>>=◌ : {A B : Type 0} → Built A → (A → Built B) → Built B
built a >>= f = f a
refused e >>= f = refused e
crashed >>= f = crashed

-- `len(xs) > 0`
abbrev pub has : {A : Type 0} → List A → Bool
has [] = false
has (x ∷ xs) = true

-- An entry of a map, or an error; and what panics.
abbrev pub or_refuse : {A : Type 0} → ConfigError → Option A → Built A
or_refuse e none = refused e
or_refuse e (some a) = built a

abbrev pub or_crash : {A : Type 0} → Option A → Built A
or_crash none = crashed
or_crash (some a) = built a

-- The loop over `FromServers`.
unfoldable pub set_servers : (List ℕ → Option ℕ) → List (List ℕ) → BitSet → Built BitSet
set_servers index_of [] servers = built servers
set_servers index_of (server ∷ rest) servers = do
  index ← or_refuse server_not_found (index_of server)
  servers' ← or_crash (set_bit servers index)
  set_servers index_of rest servers'

-- The loop over `FromPorts`, and over `ToPorts`.
unfoldable pub add_ports : List ℕ → PortSet.PortSet → Built PortSet.PortSet
add_ports [] ports = built ports
add_ports (port ∷ rest) ports =
    if port == 0
    then refused zero_port
    else (do ports' ← or_crash (PortSet.add ports port); add_ports rest ports')

-- The set of the ports and of the ranges.
unfoldable pub port_set_of : List ℕ → List ℕ → Built PortSet.PortSet
port_set_of ports ranges = do
  port_set ← add_ports ports new_port_set
  let (e, port_set') = parse port_set ranges
  elim e [ none ↦ built port_set' | some _ ↦ refused bad_port_ranges ]

-- The criterion for a set of ports: one port, at most 16 ranges, or the set.
unfoldable pub port_criterion :
    (ℕ → Criterion)
    → (List PortRange → Criterion)
    → (PortSet.PortSet → Criterion)
    → PortSet.PortSet
    → Built Criterion
port_criterion one ranges whole port_set =
    let n = count port_set in
    if n == 0
    then crashed
    else if n == 1
    then built (one (first port_set))
    else if n == 65535
    then refused pointless_port_criteria
    else if leb (range_count port_set) 16
    then built (ranges (range_set port_set))
    else built (whole port_set)

-- The loop over prefix sets.
unfoldable pub find_prefix_sets : (List ℕ → Option IpSet) → List (List ℕ) → Built (List IpSet)
find_prefix_sets set_of [] = built []
find_prefix_sets set_of (name ∷ names) = do
  s ← or_refuse prefix_set_not_found (set_of name)
  rest ← find_prefix_sets set_of names
  built (s ∷ rest)

-- The loop over `ToDomainSets`.
unfoldable pub find_domain_sets :
    (List ℕ → Option DomainMatch) → List (List ℕ) → Built (List DomainMatch)
find_domain_sets set_of [] = built []
find_domain_sets set_of (name ∷ names) = do
  ds ← or_refuse domain_set_not_found (set_of name)
  rest ← find_domain_sets set_of names
  built (ds ∷ rest)

-- The domain set of `ToDomains`, if there are any, and those of `ToDomainSets`.
unfoldable pub domain_sets_of :
    (List ℕ → Option DomainMatch) → List (List ℕ) → List (List ℕ) → Built (List DomainMatch)
domain_sets_of set_of domains names = do
  named ← find_domain_sets set_of names
  built (if has domains then set_match (domain_linear_append_to domains []) ∷ named else named)
