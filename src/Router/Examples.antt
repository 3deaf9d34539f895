-- ===== src/Router/Examples.antt =====
-- A router with three routes, and one that is made from a configuration.
use shadowsocks.Base.{
  ℕ, bytes_eq, ◌∷◌, [], List, ◌↔◌, ◌≡◌, refl, Option, none, some, true, false, arith,
}
use shadowsocks.Addr.{Ip, v4, AddrPort, Addr, domain_addr, is_valid, get_port}
use shadowsocks.Base.{zero, suc, ap, ◌<◌, ◌^◌, All, replicate, length-replicate}
use shadowsocks.Base.Blocks.{count_blocks, ones_count}
use shadowsocks.PortSet
use shadowsocks.PortSet.{trailing_zeros}
use shadowsocks.PortSet.RangeSet.{range_set, range_count, scan_blocks, scan_block, skip_zeros}
use shadowsocks.Router.Ports.{port_criterion-meet}
use shadowsocks.Router.Config.{port_criterion}
use shadowsocks.Router.Criteria.{
  source_port, source_port_range_set, source_port_set, dest_port_range_set, dest_port_set,
}
use shadowsocks.Router.Request.{
  protocol_tcp, protocol_udp, RequestInfo, value, failed, rejected, lookup, Resolver, country,
  IpSet, found, lookup_failed,
}
use shadowsocks.Router.Criteria.{
  Criteria, no_criteria, criterion_and, network_udp, inverted, dest_port, dest_resolved_ip, meet,
  source_server, source_user, group_or, dest_domain_expected_ip, dest_resolved_geoip_country,
}
use shadowsocks.Router.Route.{
  Route, match_criteria, match_route, match_routes, get_tcp_client, get_udp_client, group_append_to,
  add_criterion, append_criterion, group_add_criterion, group_criterion,
}
use shadowsocks.Router.First.{Decides}
use shadowsocks.Router.Groups.{GivesWith, match_criteria-append_to_iff}
use shadowsocks.Router.Decisions.{to_list, lookup_iff, match_route_iff, match_routes_iff}
use shadowsocks.Router.Answers.{Answers, get_client-Answers, get_client_rejected}
use shadowsocks.BitSet.{new_bit_set, set_bit, check_index, update}
use shadowsocks.DomainSet.{domain_linear, domain_linear_append_to, set_match}
use shadowsocks.Router.Config.{
  RouteConfig, Environment, built, set_servers, find_prefix_sets, find_domain_sets, domain_sets_of,
}
use shadowsocks.Router.Build.{
  default_name, build_route, check_config, choose_resolvers, add_network, set_clients, from_group,
  expected_group, domain_criterion, to_group,
}
use shadowsocks.Router.Make.{build_router, build_routes, default_client}
use shadowsocks.Router.Always.{build_router-Answers}

abbrev home : Ip
home = v4 (10 ∷ 0 ∷ 0 ∷ 1 ∷ [])

abbrev silent : Resolver
silent domain = lookup_failed

abbrev answering : Resolver
answering domain = found home

abbrev resolvers : List Resolver
resolvers = silent ∷ answering ∷ []

abbrev request : RequestInfo
request = record {
  server_index = 0;
  username = [];
  source = record { ip = home; port = 5000 };
  target = domain_addr (97 ∷ []) 443;
}

abbrev route_udp : Route
route_udp = record {
  name = 1 ∷ [];
  criteria = criterion_and network_udp no_criteria;
  tcp_client = some 7;
  udp_client = some 8;
}

abbrev private_group : Criteria
private_group =
    criterion_and (dest_port 80)
      (criterion_and (inverted (dest_resolved_ip (λ ip. false) resolvers)) no_criteria)

abbrev route_private : Route
route_private = record {
  name = 2 ∷ [];
  criteria =
      criterion_and (dest_port 443)
        (criterion_and (dest_resolved_ip (λ ip. true) resolvers) no_criteria);
  tcp_client = none;
  udp_client = some 9;
}

abbrev default_ : Route
default_ = record {
  name = 3 ∷ [];
  criteria = no_criteria;
  tcp_client = some 1;
  udp_client = some 2;
}

abbrev all_routes : List Route
all_routes = route_udp ∷ route_private ∷ default_ ∷ []

rejects : get_tcp_client all_routes request ≡ failed rejected
unfolding get_tcp_client match_routes match_route match_criteria meet lookup
    shadowsocks.Router.Route.route_tcp_client shadowsocks.Router.Route.client_or_rejected
    shadowsocks.Addr.is_ip shadowsocks.Addr.get_domain shadowsocks.Addr.get_port
    shadowsocks.Addr.is_4
rejects = refl

lookup_iff_example :
    (lookup resolvers (97 ∷ []) ≡ value home)
    ↔ Decides (λ r. r (97 ∷ []) ≡ lookup_failed) (λ r. r (97 ∷ []) ≡ found home) resolvers
lookup_iff_example = lookup_iff resolvers (97 ∷ []) home

match_route_iff_example :
    (match_route route_udp protocol_tcp request ≡ value false)
    ↔ Decides
        (λ c. meet c protocol_tcp request ≡ value true)
        (λ c. meet c protocol_tcp request ≡ value false)
        (to_list (criterion_and network_udp no_criteria))
match_route_iff_example = match_route_iff route_udp protocol_tcp request (value false) (λ e. cc)

match_routes_iff_example :
    (match_routes all_routes protocol_tcp request ≡ value route_private)
    ↔ Decides
        (λ x. match_route x protocol_tcp request ≡ value false)
        (λ x. (match_route x protocol_tcp request ≡ value true) × (x ≡ route_private))
        all_routes
match_routes_iff_example = match_routes_iff all_routes protocol_tcp request route_private

match_criteria-append_to_iff_example :
    (match_criteria
        (group_append_to private_group (criterion_and network_udp no_criteria))
        protocol_udp
        request
      ≡ value true)
    ↔ GivesWith protocol_udp request private_group
        (criterion_and network_udp no_criteria)
        (value true)
match_criteria-append_to_iff_example =
    match_criteria-append_to_iff protocol_udp request private_group
      (criterion_and network_udp no_criteria) (value true)

all_routes_answer :
    Answers (get_tcp_client all_routes request) × Answers (get_udp_client all_routes request)
unfolding is_valid
all_routes_answer = get_client-Answers all_routes request (record {
  configured = route_udp ∷ route_private ∷ [];
  default_route = default_;
  split = refl;
  no_default_criteria = refl;
  safe = ((tt, tt), ((tt, (refl, tt)), tt));
})

get_client_rejected_example :
    ((get_tcp_client all_routes request ≡ failed rejected) ↔ (
      (x : Route) × (match_routes all_routes protocol_tcp request ≡ value x)
      × (x.tcp_client ≡ none)))
    × ((get_udp_client all_routes request ≡ failed rejected) ↔ (
        (x : Route) × (match_routes all_routes protocol_udp request ≡ value x)
        × (x.udp_client ≡ none)))
get_client_rejected_example = get_client_rejected all_routes request

-- A configuration of one route: from user 1 by server 1, to the domain `a` or to other addresses than those
-- of a set.
abbrev config : RouteConfig ℕ
config = record {
  name = 120 ∷ [];
  network = [];
  client = 7 ∷ [];
  resolver = [];
  from_servers = (1 ∷ []) ∷ [];
  from_users = (1 ∷ []) ∷ [];
  from_ports = [];
  from_port_ranges = [];
  from_prefixes = [];
  from_prefix_sets = [];
  from_geoip_countries = [];
  to_ports = [];
  to_port_ranges = [];
  to_domains = (97 ∷ []) ∷ [];
  to_domain_sets = [];
  to_matched_domain_expected_prefixes = [];
  to_matched_domain_expected_prefix_sets = [];
  to_matched_domain_expected_geoip_countries = (85 ∷ 83 ∷ []) ∷ [];
  to_prefixes = 10 ∷ [];
  to_prefix_sets = [];
  to_geoip_countries = [];
  disable_name_resolution_for_ip_rules = false;
  invert_from_servers = false;
  invert_from_users = true;
  invert_from_prefixes = false;
  invert_from_geoip_countries = false;
  invert_from_ports = false;
  invert_to_domains = false;
  invert_to_matched_domain_expected_prefixes = false;
  invert_to_matched_domain_expected_geoip_countries = true;
  invert_to_prefixes = true;
  invert_to_geoip_countries = false;
  invert_to_ports = false;
}

abbrev environment : Environment
environment = record {
  geoip = some (λ ip. country (85 ∷ 83 ∷ []));
  resolvers = resolvers;
  resolver_map = λ name. none;
  tcp_client_map = λ name. some 7;
  udp_client_map = λ name. some 8;
  only_tcp_client = some 7;
  only_udp_client = none;
  server_index_by_name = λ name. some 1;
  server_count = 2;
  domain_set_map = λ name. none;
  prefix_set_map = λ name. none;
}

abbrev ip_set_of : List ℕ → List IpSet → Option IpSet
ip_set_of prefixes sets = some (λ ip. true)

abbrev made : List Route
made =
    record {
      name = 120 ∷ [];
      criteria = criterion_and (source_server (record { blocks = 2 ∷ []; capacity = 2 })) (
          criterion_and (inverted (source_user ((1 ∷ []) ∷ []))) (
            criterion_and
              (group_or (
                criterion_and
                  (dest_domain_expected_ip (set_match (domain_linear ((97 ∷ []) ∷ []) ∷ []) ∷ []) (
                    inverted (
                      dest_resolved_geoip_country ((85 ∷ 83 ∷ []) ∷ [])
                        (some (λ ip. country (85 ∷ 83 ∷ []))) resolvers)))
                  (criterion_and (inverted (dest_resolved_ip (λ ip. true) resolvers)) no_criteria)))
              no_criteria));
      tcp_client = some 7;
      udp_client = some 8;
    }
    ∷ record { name = default_name; criteria = no_criteria; tcp_client = some 7; udp_client = none }
    ∷ []

build_made : build_router ℕ ip_set_of environment [] [] (config ∷ []) ≡ built made
unfolding build_router default_client build_routes build_route check_config choose_resolvers
    add_network set_clients from_group expected_group domain_criterion to_group set_servers
    find_prefix_sets find_domain_sets domain_sets_of add_criterion append_criterion
    group_add_criterion group_criterion group_append_to new_bit_set set_bit check_index update
    domain_linear_append_to bytes_eq
build_made = refl

build_router-Answers_example :
    Answers (get_tcp_client made request) × Answers (get_udp_client made request)
unfolding is_valid get_port
build_router-Answers_example =
    build_router-Answers ℕ ip_set_of environment [] [] (config ∷ []) request made
      (record {
        known_server = omega arith;
        source_port_ne = λ e. omega (arith, e);
        target_port_ne = λ e. omega (arith, e);
        target_valid = refl;
      })
      build_made

abbrev two_ranges_of_ports : PortSet.PortSet
two_ranges_of_ports = 14 ∷ 2 ^ 63 ∷ replicate 1022 0

few_words : (n : ℕ) → All (λ w. w < 2 ^ 64) (replicate n 0)
few_words zero = tt
few_words (suc n) = (omega arith, few_words n)

from_ranges :
    port_criterion source_port source_port_range_set source_port_set two_ranges_of_ports
    ≡ built (source_port_range_set (range_set two_ranges_of_ports))
unfolding port_criterion PortSet.count count_blocks ones_count range_count scan_blocks scan_block
    skip_zeros trailing_zeros
from_ranges = refl

to_ranges :
    port_criterion dest_port dest_port_range_set dest_port_set two_ranges_of_ports
    ≡ built (dest_port_range_set (range_set two_ranges_of_ports))
unfolding port_criterion PortSet.count count_blocks ones_count range_count scan_blocks scan_block
    skip_zeros trailing_zeros
to_ranges = refl

port_criterion-meet_example :
    (meet (source_port_range_set (range_set two_ranges_of_ports)) protocol_tcp request
      ≡ meet (source_port_set two_ranges_of_ports) protocol_tcp request)
    × (meet (dest_port_range_set (range_set two_ranges_of_ports)) protocol_tcp request
        ≡ meet (dest_port_set two_ranges_of_ports) protocol_tcp request)
unfolding get_port
port_criterion-meet_example =
    port_criterion-meet two_ranges_of_ports protocol_tcp request
      (source_port_range_set (range_set two_ranges_of_ports))
      (dest_port_range_set (range_set two_ranges_of_ports))
      (ap (λ n. suc (suc n)) (length-replicate {A = ℕ} 1022 0))
      (omega arith, (omega arith, few_words 1022)) (omega arith) (omega arith) (omega arith)
      (omega arith) from_ranges to_ranges
