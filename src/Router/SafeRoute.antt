-- ===== src/Router/SafeRoute.antt =====
-- The route that `RouteConfig.Route` makes is one on which no criterion panics.
use shadowsocks.Base.{◌≡◌, refl, ◌||◌, bytes_eq, List, [], Option, none, some}
use shadowsocks.Router.Request.{RequestInfo, IpSet}
use shadowsocks.Router.Criteria.{
  network_tcp, network_udp, source_user, source_port, source_port_range_set, source_port_set,
  dest_port, dest_port_range_set, dest_port_set, no_criteria,
}
use shadowsocks.Router.Route.{Route, add_criterion, group_append_to}
use shadowsocks.Router.Config.{
  RouteConfig, Environment, ConfigError, tcp_client_not_found, udp_client_not_found, Built, built,
  refused, has, port_set_of,
}
use shadowsocks.Router.Build.{
  route_when, check_config, choose_resolvers, add_network, set_clients, from_group, to_group,
  build_route, tcp_name, udp_name, choose_client, server_criterion, from_port_criterion,
  to_port_criterion,
}
use shadowsocks.Router.Panics.{AllSafe}
use shadowsocks.Router.Makes.{
  Makes, Makes-bind, Makes-any, Makes-if, AllSafe-append, AllSafe-group_append_to,
  route_when-AllSafe,
}
use shadowsocks.Router.Safe.{
  IsOrdinary, SafeGroup, SafeCriterion, server_criterion-IsSafe, port_criterion-IsSafe,
  from_group-AllSafe, to_group-AllSafe,
}

module _ (Prefix : Type 0) (ip_set_of : List Prefix → List IpSet → Option IpSet) where
  module _ (env : Environment) (rc : RouteConfig Prefix) (r : RequestInfo)
      (ok : IsOrdinary Prefix ip_set_of env r) where
    abbrev SafeRoute : Route → Type 0
    SafeRoute route = AllSafe route.criteria r

    add_network-AllSafe :
        (route : Route) → SafeRoute route → Makes SafeRoute (add_network Prefix ip_set_of rc route)
    unfolding add_network add_criterion
    add_network-AllSafe route h =
        Makes-if SafeRoute (bytes_eq rc.network []) _ _ (λ _. h)
          (λ _.
            Makes-if SafeRoute (bytes_eq rc.network tcp_name) _ _
              (λ _. AllSafe-append r route.criteria network_tcp h tt)
              (λ _.
                Makes-if SafeRoute (bytes_eq rc.network udp_name) _ _
                  (λ _. AllSafe-append r route.criteria network_udp h tt) (λ _. tt)))

    set_clients-AllSafe :
        (route : Route)
        → SafeRoute route
        → Makes SafeRoute (set_clients Prefix ip_set_of env rc route)
    unfolding set_clients
    set_clients-AllSafe route h =
        let tcp =
          choose_client Prefix ip_set_of rc tcp_name tcp_client_not_found env.tcp_client_map in
        let udp =
          choose_client Prefix ip_set_of rc udp_name udp_client_not_found env.udp_client_map in
        Makes-bind (λ _. Unit) SafeRoute tcp _ (Makes-any tcp)
          (λ _ _. Makes-bind (λ _. Unit) SafeRoute udp _ (Makes-any udp) (λ _ _. h))

    from_port_criterion-IsSafe :
        Makes (SafeCriterion Prefix ip_set_of env rc r ok) (from_port_criterion Prefix ip_set_of rc)
    from_port_criterion-IsSafe =
        let ports = port_set_of rc.from_ports rc.from_port_ranges in
        Makes-bind (λ _. Unit) (SafeCriterion Prefix ip_set_of env rc r ok) ports _
          (Makes-any ports)
          (λ s _.
            port_criterion-IsSafe Prefix ip_set_of env rc r ok source_port source_port_range_set
              source_port_set s (λ _. tt) (λ _. tt) ok.source_port_ne)

    to_port_criterion-IsSafe :
        Makes (SafeCriterion Prefix ip_set_of env rc r ok) (to_port_criterion Prefix ip_set_of rc)
    to_port_criterion-IsSafe =
        let ports = port_set_of rc.to_ports rc.to_port_ranges in
        Makes-bind (λ _. Unit) (SafeCriterion Prefix ip_set_of env rc r ok) ports _
          (Makes-any ports)
          (λ s _.
            port_criterion-IsSafe Prefix ip_set_of env rc r ok dest_port dest_port_range_set
              dest_port_set s (λ _. tt) (λ _. tt) ok.target_port_ne)

    checked :
        (o : Option ConfigError) (k : Built Route)
        → (o ≡ none → Makes SafeRoute k)
        → Makes SafeRoute (elim o [ some e ↦ refused e | none ↦ k ])
    checked none k h = h refl
    checked (some e) k h = tt

    pub build_route-AllSafe : Makes SafeRoute (build_route Prefix ip_set_of env rc)
    unfolding build_route
    build_route-AllSafe = checked (check_config Prefix ip_set_of env rc) _ (λ e.
        let start : Route = record {
          name = rc.name;
          criteria = no_criteria;
          tcp_client = none;
          udp_client = none;
        } in
        let resolvers = choose_resolvers Prefix ip_set_of env rc in
        let servers = server_criterion Prefix ip_set_of env rc in
        let users = source_user rc.from_users in
        let from_ports = from_port_criterion Prefix ip_set_of rc in
        let to_ports = to_port_criterion Prefix ip_set_of rc in
        let S : Route → Type 0 = SafeRoute in
        Makes-bind (λ _. Unit) S resolvers _ (Makes-any resolvers)
          (λ rs _.
            Makes-bind S S (add_network Prefix ip_set_of rc start) _ (add_network-AllSafe start tt)
              (λ r1 h1.
                Makes-bind S S (set_clients Prefix ip_set_of env rc r1) _
                  (set_clients-AllSafe r1 h1)
                  (λ r2 h2.
                    Makes-bind S S
                      (route_when (has rc.from_servers) servers rc.invert_from_servers r2) _
                      (route_when-AllSafe r (has rc.from_servers) servers rc.invert_from_servers r2
                        (server_criterion-IsSafe Prefix ip_set_of env rc r ok) h2)
                      (λ r3 h3.
                        Makes-bind S S
                          (route_when (has rc.from_users) (built users) rc.invert_from_users r3) _
                          (route_when-AllSafe r (has rc.from_users) (built users)
                            rc.invert_from_users r3 tt h3)
                          (λ r4 h4.
                            Makes-bind S S
                              (route_when (has rc.from_ports || has rc.from_port_ranges) from_ports
                                rc.invert_from_ports r4)
                              _
                              (route_when-AllSafe r _ from_ports rc.invert_from_ports r4
                                from_port_criterion-IsSafe h4)
                              (λ r5 h5.
                                Makes-bind (SafeGroup Prefix ip_set_of env rc r ok) S
                                  (from_group Prefix ip_set_of env rc) _
                                  ((from_group-AllSafe Prefix ip_set_of env rc r ok) e)
                                  (λ from hf.
                                    let r6 : Route = record r5 {
                                      criteria = group_append_to from r5.criteria;
                                    } in
                                    Makes-bind S S
                                      (route_when (has rc.to_ports || has rc.to_port_ranges)
                                        to_ports rc.invert_to_ports r6)
                                      _
                                      (route_when-AllSafe r _ to_ports rc.invert_to_ports r6
                                        to_port_criterion-IsSafe
                                        (AllSafe-group_append_to r from r5.criteria hf h5))
                                      (λ r7 h7.
                                        Makes-bind (SafeGroup Prefix ip_set_of env rc r ok) S
                                          (to_group Prefix ip_set_of env rc rs) _
                                          ((to_group-AllSafe Prefix ip_set_of env rc r ok) rs e)
                                          (λ to ht.
                                            AllSafe-group_append_to r to r7.criteria ht h7))))))))))
