-- ===== src/Router/Criteria.antt =====
-- The criteria of routes, from router/route.go, and whether a request meets them.
use shadowsocks.Base.{ℕ, Bool, true, false, not, if◌then◌else◌, ◌==◌, List, [], ◌∷◌, none, some}
use shadowsocks.Addr.{Ip, Addr, is_ip, get_ip, get_domain, get_port}
use shadowsocks.BitSet.{BitSet, is_set}
use shadowsocks.PortSet
use shadowsocks.PortSet.{PortRange, set_contains}
use shadowsocks.DomainSet
use shadowsocks.Router.Request.{
  Protocol, protocol_tcp, protocol_udp, RequestInfo, Outcome, value, failed, panics, ◌>>=◌,
  or_panic, Resolver, lookup, unmap, DomainMatch, IpSet, country, country_error, GeoIp, geoip_error,
}

-- `Criterion`: the types of route.go that implement it, and the nil interface, a call of which panics.
-- `[]Criterion` is `Criteria`.
mutual
  pub data Criterion : Type 0 where
    nil_criterion : Criterion
    inverted : Criterion → Criterion
    group_or : Criteria → Criterion
    network_tcp : Criterion
    network_udp : Criterion
    source_server : BitSet → Criterion
    source_user : List (List ℕ) → Criterion
    source_port : ℕ → Criterion
    source_port_range_set : List PortRange → Criterion
    source_port_set : PortSet.PortSet → Criterion
    source_ip : IpSet → Criterion
    source_geoip_country : List (List ℕ) → GeoIp → Criterion
    dest_port : ℕ → Criterion
    dest_port_range_set : List PortRange → Criterion
    dest_port_set : PortSet.PortSet → Criterion
    dest_domain : List DomainMatch → Criterion
    dest_domain_expected_ip : List DomainMatch → Criterion → Criterion
    dest_ip : IpSet → Criterion
    dest_resolved_ip : IpSet → List Resolver → Criterion
    dest_geoip_country : List (List ℕ) → GeoIp → Criterion
    dest_resolved_geoip_country : List (List ℕ) → GeoIp → List Resolver → Criterion

  pub data Criteria : Type 0 where
    no_criteria : Criteria
    criterion_and : Criterion → Criteria → Criteria

-- `matchAddrToGeoIPCountries`
unfoldable pub match_addr_to_geoip_countries : List (List ℕ) → Ip → GeoIp → Outcome Bool
match_addr_to_geoip_countries countries addr none = panics
match_addr_to_geoip_countries countries addr (some geoip) = elim (geoip addr) [
  | country code ↦ value (DomainSet.contains countries code)
  | country_error e ↦ failed (geoip_error e)
]

-- `matchDomainToDomainSets`
unfoldable pub match_domain_to_domain_sets : List DomainMatch → List ℕ → Bool
match_domain_to_domain_sets [] domain = false
match_domain_to_domain_sets (ds ∷ domain_sets) domain =
    if ds domain then true else match_domain_to_domain_sets domain_sets domain

-- `matchDomainToGeoIPCountries`
abbrev pub match_domain_to_geoip_countries :
    List Resolver → List ℕ → List (List ℕ) → GeoIp → Outcome Bool
match_domain_to_geoip_countries resolvers domain countries geoip = do
  ip ← lookup resolvers domain
  match_addr_to_geoip_countries countries ip geoip

-- `matchDomainToIPSet`
abbrev pub match_domain_to_ip_set : List Resolver → List ℕ → IpSet → Outcome Bool
match_domain_to_ip_set resolvers domain ip_set = do
  ip ← lookup resolvers domain
  value (ip_set (unmap ip))

-- `DestDomainCriterion.Meet`
abbrev pub meet_domain : List DomainMatch → Addr → Outcome Bool
meet_domain domain_sets target = if is_ip target then value false else (do
  domain ← or_panic (get_domain target)
  value (match_domain_to_domain_sets domain_sets domain))

-- The `Meet` of a destination IP address, and what is done with a domain.
abbrev pub meet_ip : (Ip → Outcome Bool) → (Addr → Outcome Bool) → Addr → Outcome Bool
meet_ip of_ip otherwise target =
    if is_ip target then (do ip ← or_panic (get_ip target); of_ip ip) else otherwise target

abbrev pub is_tcp : Protocol → Bool
is_tcp protocol_tcp = true
is_tcp protocol_udp = false

-- `Meet` of each criterion, and the loop of `CriterionGroupOR.Meet`.
unfoldable mutual
  pub meet : Criterion → Protocol → RequestInfo → Outcome Bool
  meet nil_criterion network r = panics
  meet (inverted inner) network r = do met ← meet inner network r; value (not met)
  meet (group_or criteria) network r = meet_any criteria network r
  meet network_tcp network r = value (is_tcp network)
  meet network_udp network r = value (not (is_tcp network))
  meet (source_server servers) network r = or_panic (is_set servers r.server_index)
  meet (source_user users) network r = value (DomainSet.contains users r.username)
  meet (source_port port) network r = value (port == r.source.port)
  meet (source_port_range_set ranges) network r = value (set_contains ranges r.source.port)
  meet (source_port_set ports) network r = or_panic (PortSet.contains ports r.source.port)
  meet (source_ip ip_set) network r = value (ip_set (unmap r.source.ip))
  meet (source_geoip_country countries geoip) network r =
      match_addr_to_geoip_countries countries r.source.ip geoip
  meet (dest_port port) network r = value (port == get_port r.target)
  meet (dest_port_range_set ranges) network r = value (set_contains ranges (get_port r.target))
  meet (dest_port_set ports) network r = or_panic (PortSet.contains ports (get_port r.target))
  meet (dest_domain domain_sets) network r = meet_domain domain_sets r.target
  meet (dest_domain_expected_ip domain_sets expected) network r =
      let of_ip = meet expected network r in
      (do met ← meet_domain domain_sets r.target; if met then of_ip else value false)
  meet (dest_ip ip_set) network r =
      meet_ip (λ ip. value (ip_set (unmap ip))) (λ _. value false) r.target
  meet (dest_resolved_ip ip_set resolvers) network r =
      meet_ip (λ ip. value (ip_set (unmap ip)))
        (λ target. do
          domain ← or_panic (get_domain target)
          match_domain_to_ip_set resolvers domain ip_set)
        r.target
  meet (dest_geoip_country countries geoip) network r =
      meet_ip (λ ip. match_addr_to_geoip_countries countries ip geoip) (λ _. value false) r.target
  meet (dest_resolved_geoip_country countries geoip resolvers) network r =
      meet_ip (λ ip. match_addr_to_geoip_countries countries ip geoip)
        (λ target. do
          domain ← or_panic (get_domain target)
          match_domain_to_geoip_countries resolvers domain countries geoip)
        r.target

  pub meet_any : Criteria → Protocol → RequestInfo → Outcome Bool
  meet_any no_criteria network r = value false
  meet_any (criterion_and criterion rest) network r =
      let of_rest = meet_any rest network r in
      (do met ← meet criterion network r; if met then value true else of_rest)
