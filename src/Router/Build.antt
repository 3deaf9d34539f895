-- ===== src/Router/Build.antt =====
-- `RouteConfig.Route`: the route that a configuration makes.
use shadowsocks.Base.{
  ℕ, Bool, true, false, not, ◌&&◌, ◌||◌, if◌then◌else◌, bytes_eq, List, [], ◌∷◌, Option, none, some,
}
use shadowsocks.BitSet.{new_bit_set}
use shadowsocks.Router.Request.{Resolver, IpSet, GeoIp}
use shadowsocks.Router.Criteria.{
  Criterion, nil_criterion, network_tcp, network_udp, source_server, source_user, source_port,
  source_port_range_set, source_port_set, source_ip, source_geoip_country, dest_port,
  dest_port_range_set, dest_port_set, dest_domain, dest_domain_expected_ip, dest_ip,
  dest_resolved_ip, dest_geoip_country, dest_resolved_geoip_country, Criteria, no_criteria,
}
use shadowsocks.Router.Route.{
  Route, add_criterion, group_add_criterion, group_criterion, group_append_to,
}
use shadowsocks.Router.Config.{
  RouteConfig, Environment, ConfigError, bad_name, missing_database, missing_resolvers,
  missing_domain_criteria, resolver_not_found, invalid_network, tcp_client_not_found,
  udp_client_not_found, ip_set_failed, Built, built, refused, ◌>>=◌, has, or_refuse, set_servers,
  port_set_of, port_criterion, find_prefix_sets, domain_sets_of,
}

-- The names that the code compares with.
abbrev pub default_name : List ℕ
default_name = b'd' ∷ b'e' ∷ b'f' ∷ b'a' ∷ b'u' ∷ b'l' ∷ b't' ∷ []

abbrev pub reject_name : List ℕ
reject_name = b'r' ∷ b'e' ∷ b'j' ∷ b'e' ∷ b'c' ∷ b't' ∷ []

abbrev pub tcp_name : List ℕ
tcp_name = b't' ∷ b'c' ∷ b'p' ∷ []

abbrev pub udp_name : List ℕ
udp_name = b'u' ∷ b'd' ∷ b'p' ∷ []

-- A criterion that a group has under a condition.
abbrev pub add_when : Bool → Built Criterion → Bool → Criteria → Built Criteria
add_when true criterion invert g = do c ← criterion; built (group_add_criterion g c invert)
add_when false criterion invert g = built g

-- A criterion that a route has under a condition.
abbrev pub route_when : Bool → Built Criterion → Bool → Route → Built Route
route_when true criterion invert route = do c ← criterion; built (add_criterion route c invert)
route_when false criterion invert route = built route

-- The criterion of a group as a value of the interface.
abbrev pub or_nil : Option Criterion → Criterion
or_nil none = nil_criterion
or_nil (some c) = c

-- `netipx.IPSetBuilder`: the set of the prefixes and of the sets that are added, or an error.
module _ (Prefix : Type 0) (ip_set_of : List Prefix → List IpSet → Option IpSet) where
  abbrev pub build_ip_set : Environment → List Prefix → List (List ℕ) → Built IpSet
  build_ip_set env prefixes names = do
    sets ← find_prefix_sets env.prefix_set_map names
    or_refuse ip_set_failed (ip_set_of prefixes sets)

  abbrev pub has_geoip : RouteConfig Prefix → Bool
  has_geoip rc =
      has rc.from_geoip_countries
      || has rc.to_geoip_countries
      || has rc.to_matched_domain_expected_geoip_countries

  abbrev pub has_expected : RouteConfig Prefix → Bool
  has_expected rc =
      has rc.to_matched_domain_expected_prefixes
      || has rc.to_matched_domain_expected_prefix_sets
      || has rc.to_matched_domain_expected_geoip_countries

  abbrev pub has_to_ips : RouteConfig Prefix → Bool
  has_to_ips rc = has rc.to_prefixes || has rc.to_prefix_sets || has rc.to_geoip_countries

  abbrev pub has_domains : RouteConfig Prefix → Bool
  has_domains rc = has rc.to_domains || has rc.to_domain_sets

  abbrev pub is_nil : GeoIp → Bool
  is_nil none = true
  is_nil (some _) = false

  -- The checks at the start.
  unfoldable pub check_config : Environment → RouteConfig Prefix → Option ConfigError
  check_config env rc =
      if bytes_eq rc.name [] || bytes_eq rc.name default_name
      then some bad_name
      else if is_nil env.geoip && has_geoip rc
      then some missing_database
      else if not (has env.resolvers)
          && (has_expected rc || (not rc.disable_name_resolution_for_ip_rules && has_to_ips rc))
      then some missing_resolvers
      else if not (has_domains rc) && has_expected rc
      then some missing_domain_criteria
      else none

  -- The resolvers of the route.
  unfoldable pub choose_resolvers : Environment → RouteConfig Prefix → Built (List Resolver)
  choose_resolvers env rc =
      if has rc.resolver
      then (do
        resolver ← or_refuse resolver_not_found (env.resolver_map rc.resolver)
        built (resolver ∷ []))
      else built env.resolvers

  -- The switch on `Network`.
  unfoldable pub add_network : RouteConfig Prefix → Route → Built Route
  add_network rc route =
      if bytes_eq rc.network []
      then built route
      else if bytes_eq rc.network tcp_name
      then built (add_criterion route network_tcp false)
      else if bytes_eq rc.network udp_name
      then built (add_criterion route network_udp false)
      else refused invalid_network

  -- A client, for an empty `Network` and for the one of the client.
  abbrev pub choose_client :
      RouteConfig Prefix → List ℕ → ConfigError → (List ℕ → Option ℕ) → Built (Option ℕ)
  choose_client rc name e client_map =
      if bytes_eq rc.client reject_name
      then built none
      else if bytes_eq rc.network [] || bytes_eq rc.network name
      then (do client ← or_refuse e (client_map rc.client); built (some client))
      else built none

  unfoldable pub set_clients : Environment → RouteConfig Prefix → Route → Built Route
  set_clients env rc route = do
    tcp_client ← choose_client rc tcp_name tcp_client_not_found env.tcp_client_map
    udp_client ← choose_client rc udp_name udp_client_not_found env.udp_client_map
    built (record route { tcp_client = tcp_client; udp_client = udp_client })

  abbrev pub server_criterion : Environment → RouteConfig Prefix → Built Criterion
  server_criterion env rc = do
    servers ← set_servers env.server_index_by_name rc.from_servers (new_bit_set env.server_count)
    built (source_server servers)

  abbrev pub from_port_criterion : RouteConfig Prefix → Built Criterion
  from_port_criterion rc = do
    ports ← port_set_of rc.from_ports rc.from_port_ranges
    port_criterion source_port source_port_range_set source_port_set ports

  abbrev pub to_port_criterion : RouteConfig Prefix → Built Criterion
  to_port_criterion rc = do
    ports ← port_set_of rc.to_ports rc.to_port_ranges
    port_criterion dest_port dest_port_range_set dest_port_set ports

  abbrev pub from_ip_criterion : Environment → RouteConfig Prefix → Built Criterion
  from_ip_criterion env rc = do
    ips ← build_ip_set env rc.from_prefixes rc.from_prefix_sets
    built (source_ip ips)

  -- The group of source IP addresses.
  unfoldable pub from_group : Environment → RouteConfig Prefix → Built Criteria
  from_group env rc = do
    g ←
        add_when (has rc.from_prefixes || has rc.from_prefix_sets) (from_ip_criterion env rc)
          rc.invert_from_prefixes no_criteria
    add_when (has rc.from_geoip_countries)
        (built (source_geoip_country rc.from_geoip_countries env.geoip))
        rc.invert_from_geoip_countries g

  abbrev pub expected_ip_criterion :
      Environment → RouteConfig Prefix → List Resolver → Built Criterion
  expected_ip_criterion env rc resolvers = do
    ips ←
        build_ip_set env rc.to_matched_domain_expected_prefixes
          rc.to_matched_domain_expected_prefix_sets
    built (dest_resolved_ip ips resolvers)

  -- The group of expected IP addresses of a matched domain.
  unfoldable pub expected_group : Environment → RouteConfig Prefix → List Resolver → Built Criteria
  expected_group env rc resolvers = do
    g ←
        add_when
          (has rc.to_matched_domain_expected_prefixes
            || has rc.to_matched_domain_expected_prefix_sets)
          (expected_ip_criterion env rc resolvers) rc.invert_to_matched_domain_expected_prefixes
          no_criteria
    add_when (has rc.to_matched_domain_expected_geoip_countries)
        (built (
          dest_resolved_geoip_country rc.to_matched_domain_expected_geoip_countries env.geoip
            resolvers))
        rc.invert_to_matched_domain_expected_geoip_countries g

  -- The criterion of destination domains.
  unfoldable pub domain_criterion :
      Environment → RouteConfig Prefix → List Resolver → Built Criterion
  domain_criterion env rc resolvers = do
    domain_sets ← domain_sets_of env.domain_set_map rc.to_domains rc.to_domain_sets
    if has_expected rc
        then (do
          g ← expected_group env rc resolvers
          built (dest_domain_expected_ip domain_sets (or_nil (group_criterion g))))
        else built (dest_domain domain_sets)

  abbrev pub to_ip_criterion : Environment → RouteConfig Prefix → List Resolver → Built Criterion
  to_ip_criterion env rc resolvers = do
    ips ← build_ip_set env rc.to_prefixes rc.to_prefix_sets
    built (
        if rc.disable_name_resolution_for_ip_rules
        then dest_ip ips
        else dest_resolved_ip ips resolvers)

  abbrev pub to_geoip_criterion : Environment → RouteConfig Prefix → List Resolver → Criterion
  to_geoip_criterion env rc resolvers =
      if rc.disable_name_resolution_for_ip_rules
      then dest_geoip_country rc.to_geoip_countries env.geoip
      else dest_resolved_geoip_country rc.to_geoip_countries env.geoip resolvers

  -- The group of destinations.
  unfoldable pub to_group : Environment → RouteConfig Prefix → List Resolver → Built Criteria
  to_group env rc resolvers = do
    g ←
        add_when (has_domains rc) (domain_criterion env rc resolvers) rc.invert_to_domains
          no_criteria
    g' ←
        add_when (has rc.to_prefixes || has rc.to_prefix_sets) (to_ip_criterion env rc resolvers)
          rc.invert_to_prefixes g
    add_when (has rc.to_geoip_countries) (built (to_geoip_criterion env rc resolvers))
        rc.invert_to_geoip_countries g'

  -- `RouteConfig.Route`. An empty group is appended as nothing, as the conditions on the groups have it.
  unfoldable pub build_route : Environment → RouteConfig Prefix → Built Route
  build_route env rc = elim (check_config env rc) [
    | some e ↦ refused e
    | none ↦ (do
      resolvers ← choose_resolvers env rc
      r1 ←
          add_network rc (record {
            name = rc.name;
            criteria = no_criteria;
            tcp_client = none;
            udp_client = none;
          })
      r2 ← set_clients env rc r1
      r3 ← route_when (has rc.from_servers) (server_criterion env rc) rc.invert_from_servers r2
      r4 ←
          route_when (has rc.from_users) (built (source_user rc.from_users)) rc.invert_from_users r3
      r5 ←
          route_when (has rc.from_ports || has rc.from_port_ranges) (from_port_criterion rc)
            rc.invert_from_ports r4
      from ← from_group env rc
      let r6 = record r5 { criteria = group_append_to from r5.criteria }
      r7 ←
          route_when (has rc.to_ports || has rc.to_port_ranges) (to_port_criterion rc)
            rc.invert_to_ports r6
      to ← to_group env rc resolvers
      built (record r7 { criteria = group_append_to to r7.criteria }))
  ]
