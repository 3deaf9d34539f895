-- ===== src/Router/Safe.antt =====
-- The routes that `RouteConfig.Route` makes panic on no request with ports, a target and a known server.
use shadowsocks.Base.{
  ℕ, ◌<◌, ◌≡◌, ◌≢◌, refl, sym, ap, subst, inl, inr, Bool, true, false, ◌||◌, if◌then◌else◌, ◌==◌,
  leb, List, [], ◌∷◌, Option, none, some, Bool-cases, arith,
}
use shadowsocks.Addr.{is_valid, get_port}
use shadowsocks.BitSet.{BitSet, new_bit_set, set_bit, check_index, update}
use shadowsocks.PortSet
use shadowsocks.PortSet.RangeSet.{range_set, range_count}
use shadowsocks.Router.Request.{RequestInfo, IpSet, Resolver, GeoIp}
use shadowsocks.Router.Criteria.{
  Criterion, source_ip, source_geoip_country, dest_ip, dest_resolved_ip, dest_geoip_country,
  dest_resolved_geoip_country, Criteria, no_criteria,
}
use shadowsocks.Router.Config.{
  RouteConfig, Environment, Built, built, ◌>>=◌, has, or_refuse, or_crash, set_servers,
  port_criterion, domain_sets_of,
}
use shadowsocks.Router.Build.{
  add_when, check_config, from_group, expected_group, domain_criterion, to_group, is_nil, has_geoip,
  has_expected, has_domains, server_criterion, build_ip_set, from_ip_criterion,
  expected_ip_criterion, to_ip_criterion, to_geoip_criterion,
}
use shadowsocks.Router.Panics.{IsSome, IsSafe, AllSafe}
use shadowsocks.Router.Makes.{
  Makes, Makes-bind, Makes-any, Makes-or_crash, Makes-if, Makes-both, IsNonempty,
  add_when-IsNonempty, group_criterion-IsSafe, add_when-AllSafe,
}

set_bit_capacity : (s t : BitSet) (i : ℕ) → set_bit s i ≡ some t → t.capacity ≡ s.capacity
unfolding set_bit check_index update
set_bit_capacity s t i e = elim (Bool-cases (leb s.capacity i)) [
  | inl out ↦ cc
  | inr inside ↦ sym (ap (λ u. capacity_of u) (rw inside at e))
]
  where
    capacity_of : Option BitSet → ℕ
    capacity_of none = 0
    capacity_of (some u) = u.capacity

set_servers_capacity :
    (index_of : List ℕ → Option ℕ) (names : List (List ℕ)) (s : BitSet)
    → Makes (λ t. t.capacity ≡ s.capacity) (set_servers index_of names s)
unfolding set_servers
set_servers_capacity index_of [] s = refl
set_servers_capacity index_of (name ∷ names) s =
    Makes-bind _ _ (or_refuse _ (index_of name)) _ (Makes-any _) (λ i _.
      Makes-bind _ _ (or_crash (set_bit s i)) _ (Makes-or_crash (set_bit s i)) (λ t e.
        subst (λ k. Makes (λ u. u.capacity ≡ k) (set_servers index_of names t))
          (set_bit_capacity s t i e) (set_servers_capacity index_of names t)))

module _ (Prefix : Type 0) (ip_set_of : List Prefix → List IpSet → Option IpSet) where
  is_nil-false : (g : GeoIp) → is_nil Prefix ip_set_of g ≡ false → IsSome g
  is_nil-false none e = cc
  is_nil-false (some g) e = tt

  -- The database that criteria of countries need is there.
  check_config_geoip :
      (env : Environment) (rc : RouteConfig Prefix)
      → check_config Prefix ip_set_of env rc ≡ none
      → has_geoip Prefix ip_set_of rc ≡ true
      → IsSome env.geoip
  unfolding check_config
  check_config_geoip env rc e h = elim (Bool-cases (is_nil Prefix ip_set_of env.geoip)) [
    | inl missing ↦ absurd (ground (arith, e, missing, h))
    | inr there ↦ is_nil-false env.geoip there
  ]

  -- A request whose server is one of the environment's, with ports and a target.
  pub record IsOrdinary (env : Environment) (r : RequestInfo) : Type 0 where
    pub known_server : r.server_index < env.server_count
    pub source_port_ne : r.source.port ≢ 0
    pub target_port_ne : get_port r.target ≢ 0
    pub target_valid : is_valid r.target ≡ true

  module _ (env : Environment) (rc : RouteConfig Prefix) (r : RequestInfo)
      (ok : IsOrdinary env r) where
    pub server_criterion-IsSafe : Makes (λ c. IsSafe c r) (server_criterion Prefix ip_set_of env rc)
    unfolding new_bit_set
    server_criterion-IsSafe =
        Makes-bind _ _
          (set_servers env.server_index_by_name rc.from_servers (new_bit_set env.server_count)) _
          (set_servers_capacity env.server_index_by_name rc.from_servers
            (new_bit_set env.server_count))
          (λ s e. subst (λ k. r.server_index < k) (sym e) ok.known_server)

    pub port_criterion-IsSafe :
        (one : ℕ → Criterion) (ranges : List PortSet.PortRange → Criterion)
        (whole : PortSet.PortSet → Criterion) (s : PortSet.PortSet)
        → ((p : ℕ) → IsSafe (one p) r)
        → ((rs : List PortSet.PortRange) → IsSafe (ranges rs) r)
        → IsSafe (whole s) r
        → Makes (λ c. IsSafe c r) (port_criterion one ranges whole s)
    unfolding port_criterion
    port_criterion-IsSafe one ranges whole s h k l =
        let n : ℕ = PortSet.count s in
        let SafeGroup : Criterion → Type 0 = λ c. IsSafe c r in
        Makes-if SafeGroup (n == 0) _ _ (λ _. tt)
          (λ _.
            Makes-if SafeGroup (n == 1) _ _ (λ _. h (PortSet.first s))
              (λ _.
                Makes-if SafeGroup (n == 65535) _ _ (λ _. tt)
                  (λ _.
                    Makes-if SafeGroup (leb (range_count s) 16) _ _ (λ _. k (range_set s))
                      (λ _. l))))

    abbrev pub SafeGroup : Criteria → Type 0
    SafeGroup g = AllSafe g r

    abbrev pub SafeCriterion : Criterion → Type 0
    SafeCriterion c = IsSafe c r

    ip_criterion-IsSafe :
        (prefixes : List Prefix) (names : List (List ℕ)) (f : IpSet → Criterion)
        → ((s : IpSet) → IsSafe (f s) r)
        → Makes SafeCriterion
            (build_ip_set Prefix ip_set_of env prefixes names >>= λ ips. built (f ips))
    ip_criterion-IsSafe prefixes names f h =
        Makes-bind (λ _. Unit) SafeCriterion (build_ip_set Prefix ip_set_of env prefixes names) _
          (Makes-any _) (λ s _. h s)

    pub from_group-AllSafe :
        (check_config Prefix ip_set_of env rc ≡ none)
        → Makes SafeGroup (from_group Prefix ip_set_of env rc)
    unfolding from_group
    from_group-AllSafe e =
        let first =
          add_when (has rc.from_prefixes || has rc.from_prefix_sets)
            (from_ip_criterion Prefix ip_set_of env rc) rc.invert_from_prefixes no_criteria in
        Makes-bind SafeGroup SafeGroup first _
          (add_when-AllSafe r _ (from_ip_criterion Prefix ip_set_of env rc) rc.invert_from_prefixes
            no_criteria
            (λ _. ip_criterion-IsSafe rc.from_prefixes rc.from_prefix_sets source_ip (λ s. tt)) tt)
          (λ g k.
            add_when-AllSafe r (has rc.from_geoip_countries)
              (built (source_geoip_country rc.from_geoip_countries env.geoip))
              rc.invert_from_geoip_countries g (λ h. check_config_geoip env rc e (rw h refl)) k)

    expected_group-AllSafe :
        (resolvers : List Resolver)
        → (check_config Prefix ip_set_of env rc ≡ none)
        → Makes SafeGroup (expected_group Prefix ip_set_of env rc resolvers)
    unfolding expected_group
    expected_group-AllSafe resolvers e =
        let ips : Built Criterion = expected_ip_criterion Prefix ip_set_of env rc resolvers in
        let countries : Criterion =
          dest_resolved_geoip_country rc.to_matched_domain_expected_geoip_countries env.geoip
            resolvers in
        let first =
          add_when
            (has rc.to_matched_domain_expected_prefixes
              || has rc.to_matched_domain_expected_prefix_sets)
            ips rc.invert_to_matched_domain_expected_prefixes no_criteria in
        Makes-bind SafeGroup SafeGroup first _
          (add_when-AllSafe r _ ips rc.invert_to_matched_domain_expected_prefixes no_criteria
            (λ _.
              ip_criterion-IsSafe rc.to_matched_domain_expected_prefixes
                rc.to_matched_domain_expected_prefix_sets (λ s. dest_resolved_ip s resolvers)
                (λ s. ok.target_valid))
            tt)
          (λ g k.
            add_when-AllSafe r (has rc.to_matched_domain_expected_geoip_countries) (built countries)
              rc.invert_to_matched_domain_expected_geoip_countries g
              (λ h. (ok.target_valid, check_config_geoip env rc e (ground (arith, h)))) k)

    expected_group-IsNonempty :
        (resolvers : List Resolver)
        → has_expected Prefix ip_set_of rc ≡ true
        → Makes IsNonempty (expected_group Prefix ip_set_of env rc resolvers)
    unfolding expected_group
    expected_group-IsNonempty resolvers e =
        let by_ip : Bool =
          has rc.to_matched_domain_expected_prefixes
          || has rc.to_matched_domain_expected_prefix_sets in
        let by_country : Bool = has rc.to_matched_domain_expected_geoip_countries in
        let ips : Built Criterion = expected_ip_criterion Prefix ip_set_of env rc resolvers in
        let first = add_when by_ip ips rc.invert_to_matched_domain_expected_prefixes no_criteria in
        let last : Built Criterion = built (
          dest_resolved_geoip_country rc.to_matched_domain_expected_geoip_countries env.geoip
            resolvers) in
        let invert : Bool = rc.invert_to_matched_domain_expected_geoip_countries in
        elim (Bool-cases by_country) [
          | inl here ↦
              Makes-bind (λ _. Unit) IsNonempty first _ (Makes-any first)
                (λ g _. add_when-IsNonempty by_country last invert g (inl here))
          | inr none_here ↦
              Makes-bind IsNonempty IsNonempty first _
                (add_when-IsNonempty by_ip ips rc.invert_to_matched_domain_expected_prefixes
                  no_criteria (inl (ground (arith, e, none_here))))
                (λ g k. add_when-IsNonempty by_country last invert g (inr k))
        ]

    domain_criterion-IsSafe :
        (resolvers : List Resolver)
        → (check_config Prefix ip_set_of env rc ≡ none)
        → Makes SafeCriterion (domain_criterion Prefix ip_set_of env rc resolvers)
    unfolding domain_criterion
    domain_criterion-IsSafe resolvers e =
        let sets = domain_sets_of env.domain_set_map rc.to_domains rc.to_domain_sets in
        Makes-bind (λ _. Unit) SafeCriterion sets _ (Makes-any sets)
          (λ ds _.
            Makes-if SafeCriterion (has_expected Prefix ip_set_of rc) _ _
              (λ expects.
                let group = expected_group Prefix ip_set_of env rc resolvers in
                Makes-bind (λ g. SafeGroup g × IsNonempty g) SafeCriterion group _
                  (Makes-both SafeGroup IsNonempty group (expected_group-AllSafe resolvers e)
                    (expected_group-IsNonempty resolvers expects))
                  (λ g k. (ok.target_valid, group_criterion-IsSafe r g k.0 k.1)))
              (λ _. ok.target_valid))

    to_geoip_criterion-IsSafe :
        (resolvers : List Resolver)
        → IsSome env.geoip
        → IsSafe (to_geoip_criterion Prefix ip_set_of env rc resolvers) r
    to_geoip_criterion-IsSafe resolvers h =
        elim rc.disable_name_resolution_for_ip_rules
          as (λ b.
            IsSafe
              (if b
                then dest_geoip_country rc.to_geoip_countries env.geoip
                else dest_resolved_geoip_country rc.to_geoip_countries env.geoip resolvers)
              r) [ true ↦ h | false ↦ (ok.target_valid, h) ]

    to_ip-IsSafe :
        (resolvers : List Resolver) (s : IpSet)
        → IsSafe
            (if rc.disable_name_resolution_for_ip_rules
              then dest_ip s
              else dest_resolved_ip s resolvers)
            r
    to_ip-IsSafe resolvers s =
        elim rc.disable_name_resolution_for_ip_rules
          as (λ b. IsSafe (if b then dest_ip s else dest_resolved_ip s resolvers) r) [
            | true ↦ tt
            | false ↦ ok.target_valid
          ]

    pub to_group-AllSafe :
        (resolvers : List Resolver)
        → (check_config Prefix ip_set_of env rc ≡ none)
        → Makes SafeGroup (to_group Prefix ip_set_of env rc resolvers)
    unfolding to_group
    to_group-AllSafe resolvers e =
        let domains : Built Criterion = domain_criterion Prefix ip_set_of env rc resolvers in
        let ips : Built Criterion = to_ip_criterion Prefix ip_set_of env rc resolvers in
        let countries : Criterion = to_geoip_criterion Prefix ip_set_of env rc resolvers in
        Makes-bind SafeGroup SafeGroup
          (add_when (has_domains Prefix ip_set_of rc) domains rc.invert_to_domains no_criteria) _
          (add_when-AllSafe r (has_domains Prefix ip_set_of rc) domains rc.invert_to_domains
            no_criteria (λ _. domain_criterion-IsSafe resolvers e) tt)
          (λ g k.
            Makes-bind SafeGroup SafeGroup
              (add_when (has rc.to_prefixes || has rc.to_prefix_sets) ips rc.invert_to_prefixes g) _
              (add_when-AllSafe r _ ips rc.invert_to_prefixes g
                (λ _.
                  ip_criterion-IsSafe rc.to_prefixes rc.to_prefix_sets _ (to_ip-IsSafe resolvers))
                k)
              (λ g' k'.
                add_when-AllSafe r (has rc.to_geoip_countries) (built countries)
                  rc.invert_to_geoip_countries g'
                  (λ h.
                    to_geoip_criterion-IsSafe resolvers
                      (check_config_geoip env rc e (ground (arith, h))))
                  k'))
