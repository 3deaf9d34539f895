-- ===== src/Router/Panics.antt =====
-- On which requests a criterion does not panic.
use shadowsocks.Base.{
  ℕ, ◌<◌, ◌≡◌, ◌≢◌, refl, ◌⊎◌, inl, inr, Bool, true, false, if◌then◌else◌, List, [], ◌∷◌, Option,
  none, some, lt→leb, ne→==,
}
use shadowsocks.Addr.{
  Ip, Addr, none_addr, ip_addr, domain_addr, is_valid, is_ip, get_ip, get_domain, get_port,
}
use shadowsocks.BitSet.{BitSet, is_set, check_index}
use shadowsocks.PortSet
use shadowsocks.PortSet.Members.{contains_lem}
use shadowsocks.Router.Request.{
  Protocol, RequestInfo, Outcome, value, failed, panics, ◌>>=◌, or_panic, rejected,
  no_available_resolvers, resolver_error, geoip_error, Resolver, lookup, found, lookup_failed,
  lookup_error, GeoIp, country, country_error,
}
use shadowsocks.Router.Criteria.{
  Criterion, nil_criterion, inverted, group_or, network_tcp, network_udp, source_server,
  source_user, source_port, source_port_range_set, source_port_set, source_ip, source_geoip_country,
  dest_port, dest_port_range_set, dest_port_set, dest_domain, dest_domain_expected_ip, dest_ip,
  dest_resolved_ip, dest_geoip_country, dest_resolved_geoip_country, Criteria, no_criteria,
  criterion_and, meet, meet_any, match_addr_to_geoip_countries, meet_domain,
}
use shadowsocks.Router.Route.{match_criteria}

abbrev pub IsSome : {A : Type 0} → Option A → Type 0
IsSome none = ⊥
IsSome (some a) = Unit

-- A request on which no criterion panics: the server is one that the set of servers knows, the port is not
-- 0 where a set of ports is asked, the GeoIP database is there, no criterion is nil, and the target is not the zero value.
abbrev mutual
  pub IsSafe : Criterion → RequestInfo → Type 0
  IsSafe nil_criterion r = ⊥
  IsSafe (inverted c) r = IsSafe c r
  IsSafe (group_or cs) r = AllSafe cs r
  IsSafe network_tcp r = Unit
  IsSafe network_udp r = Unit
  IsSafe (source_server servers) r = r.server_index < servers.capacity
  IsSafe (source_user users) r = Unit
  IsSafe (source_port port) r = Unit
  IsSafe (source_port_range_set ranges) r = Unit
  IsSafe (source_port_set ports) r = r.source.port ≢ 0
  IsSafe (source_ip ips) r = Unit
  IsSafe (source_geoip_country countries geoip) r = IsSome geoip
  IsSafe (dest_port port) r = Unit
  IsSafe (dest_port_range_set ranges) r = Unit
  IsSafe (dest_port_set ports) r = get_port r.target ≢ 0
  IsSafe (dest_domain sets) r = is_valid r.target ≡ true
  IsSafe (dest_domain_expected_ip sets c) r = (is_valid r.target ≡ true) × IsSafe c r
  IsSafe (dest_ip ips) r = Unit
  IsSafe (dest_resolved_ip ips resolvers) r = is_valid r.target ≡ true
  IsSafe (dest_geoip_country countries geoip) r = IsSome geoip
  IsSafe (dest_resolved_geoip_country countries geoip resolvers) r =
      (is_valid r.target ≡ true) × IsSome geoip

  pub AllSafe : Criteria → RequestInfo → Type 0
  AllSafe no_criteria r = Unit
  AllSafe (criterion_and c rest) r = IsSafe c r × AllSafe rest r

-- No outcome is the rejection of a route; a panic is one of `pan`.
abbrev pub Avoids : {A : Type 0} → Type 0 → Outcome A → Type 0
Avoids pan (value a) = Unit
Avoids pan (failed no_available_resolvers) = Unit
Avoids pan (failed rejected) = ⊥
Avoids pan (failed (resolver_error e)) = Unit
Avoids pan (failed (geoip_error e)) = Unit
Avoids pan panics = pan

module _ (pan : Type 0) where
  pub Avoids-bind :
      {A B : Type 0} (m : Outcome A) (f : A → Outcome B)
      → Avoids pan m
      → ((a : A) → Avoids pan (f a))
      → Avoids pan (m >>= f)
  Avoids-bind (value a) f h k = k a
  Avoids-bind (failed no_available_resolvers) f h k = tt
  Avoids-bind (failed rejected) f h k = elim h [ ]
  Avoids-bind (failed (resolver_error e)) f h k = tt
  Avoids-bind (failed (geoip_error e)) f h k = tt
  Avoids-bind panics f h k = h

  pub Avoids-if :
      {A : Type 0} (b : Bool) (x y : Outcome A)
      → (b ≡ true → Avoids pan x)
      → (b ≡ false → Avoids pan y)
      → Avoids pan (if b then x else y)
  Avoids-if true x y h k = h refl
  Avoids-if false x y h k = k refl

  Avoids-or_panic : {A : Type 0} (o : Option A) → (IsSome o) ⊎ pan → Avoids pan (or_panic o)
  Avoids-or_panic none (inl x) = elim x [ ]
  Avoids-or_panic none (inr p) = p
  Avoids-or_panic (some a) h = tt

  Avoids-lookup : (rs : List Resolver) (domain : List ℕ) → Avoids pan (lookup rs domain)
  unfolding lookup
  Avoids-lookup [] domain = tt
  Avoids-lookup (r ∷ rs) domain =
      elim (r domain)
        as (λ l. Avoids pan (elim l [
          | found ip ↦ value ip
          | lookup_failed ↦ lookup rs domain
          | lookup_error e ↦ failed (resolver_error e)
        ])) [ found ip ↦ tt | lookup_failed ↦ Avoids-lookup rs domain | lookup_error e ↦ tt ]

  Avoids-geoip :
      (countries : List (List ℕ)) (ip : Ip) (g : GeoIp)
      → IsSome g ⊎ pan
      → Avoids pan (match_addr_to_geoip_countries countries ip g)
  unfolding match_addr_to_geoip_countries
  Avoids-geoip countries ip none (inl x) = elim x [ ]
  Avoids-geoip countries ip none (inr p) = p
  Avoids-geoip countries ip (some geoip) h =
      elim (geoip ip)
        as (λ c. Avoids pan (elim c [
          | country code ↦ value (shadowsocks.DomainSet.contains countries code)
          | country_error e ↦ failed (geoip_error e)
        ])) [ country code ↦ tt | country_error e ↦ tt ]

  Avoids-ip :
      {A : Type 0} (target : Addr) (f : Ip → Outcome A)
      → ((ip : Ip) → Avoids pan (f ip))
      → is_ip target ≡ true
      → Avoids pan (or_panic (get_ip target) >>= f)
  unfolding is_ip get_ip
  Avoids-ip none_addr f k e = cc
  Avoids-ip (ip_addr a) f k e = k a.ip
  Avoids-ip (domain_addr d port) f k e = cc

  Avoids-domain :
      {A : Type 0} (target : Addr) (f : List ℕ → Outcome A)
      → (is_valid target ≡ true) ⊎ pan
      → ((d : List ℕ) → Avoids pan (f d))
      → is_ip target ≡ false
      → Avoids pan (or_panic (get_domain target) >>= f)
  unfolding is_valid is_ip get_domain
  Avoids-domain none_addr f (inl e) k _ = cc
  Avoids-domain none_addr f (inr p) k _ = p
  Avoids-domain (ip_addr a) f v k e = cc
  Avoids-domain (domain_addr d port) f v k e = k d

  is_set_safe : (s : BitSet) (i : ℕ) → i < s.capacity → IsSome (is_set s i)
  unfolding is_set check_index
  is_set_safe s i h = rw (lt→leb s.capacity i h) tt

  contains_safe : (s : PortSet.PortSet) (port : ℕ) → port ≢ 0 → IsSome (PortSet.contains s port)
  contains_safe s port h = rw (contains_lem s port, ne→== port 0 h) tt

  first_safe : {P Q : Type 0} → (P → Q) → P ⊎ pan → Q ⊎ pan
  first_safe f (inl p) = inl (f p)
  first_safe f (inr q) = inr q

  mutual
    unfolding meet

    meet-Avoids :
        (c : Criterion) (network : Protocol) (r : RequestInfo)
        → IsSafe c r ⊎ pan
        → Avoids pan (meet c network r)
    meet-Avoids nil_criterion network r (inl x) = elim x [ ]
    meet-Avoids nil_criterion network r (inr p) = p
    meet-Avoids (inverted c) network r h =
        Avoids-bind (meet c network r) _ (meet-Avoids c network r h) (λ met. tt)
    meet-Avoids (group_or cs) network r h = meet_any-Avoids cs network r h
    meet-Avoids network_tcp network r h = tt
    meet-Avoids network_udp network r h = tt
    meet-Avoids (source_server servers) network r h =
        Avoids-or_panic (is_set servers r.server_index)
          (first_safe (is_set_safe servers r.server_index) h)
    meet-Avoids (source_user users) network r h = tt
    meet-Avoids (source_port port) network r h = tt
    meet-Avoids (source_port_range_set ranges) network r h = tt
    meet-Avoids (source_port_set ports) network r h =
        Avoids-or_panic (PortSet.contains ports r.source.port)
          (first_safe (contains_safe ports r.source.port) h)
    meet-Avoids (source_ip ips) network r h = tt
    meet-Avoids (source_geoip_country countries geoip) network r h =
        Avoids-geoip countries r.source.ip geoip h
    meet-Avoids (dest_port port) network r h = tt
    meet-Avoids (dest_port_range_set ranges) network r h = tt
    meet-Avoids (dest_port_set ports) network r h =
        Avoids-or_panic (PortSet.contains ports (get_port r.target))
          (first_safe (contains_safe ports (get_port r.target)) h)
    meet-Avoids (dest_domain sets) network r h =
        Avoids-if (is_ip r.target) _ _ (λ _. tt) (Avoids-domain r.target _ h (λ d. tt))
    meet-Avoids (dest_domain_expected_ip sets c) network r h =
        Avoids-bind (meet_domain sets r.target) _
          (Avoids-if (is_ip r.target) _ _ (λ _. tt)
            (Avoids-domain r.target _ (first_safe (λ p. p.0) h) (λ d. tt)))
          (λ met.
            Avoids-if met _ _ (λ _. meet-Avoids c network r (first_safe (λ p. p.1) h)) (λ _. tt))
    meet-Avoids (dest_ip ips) network r h =
        Avoids-if (is_ip r.target) _ _ (Avoids-ip r.target _ (λ ip. tt)) (λ _. tt)
    meet-Avoids (dest_resolved_ip ips resolvers) network r h =
        Avoids-if (is_ip r.target) _ _ (Avoids-ip r.target _ (λ ip. tt)) (
          Avoids-domain r.target _ h
            (λ d. Avoids-bind (lookup resolvers d) _ (Avoids-lookup resolvers d) (λ ip. tt)))
    meet-Avoids (dest_geoip_country countries geoip) network r h =
        Avoids-if (is_ip r.target) _ _
          (Avoids-ip r.target _ (λ ip. Avoids-geoip countries ip geoip h)) (λ _. tt)
    meet-Avoids (dest_resolved_geoip_country countries geoip resolvers) network r h =
        let g = first_safe (λ p. p.1) h in
        Avoids-if (is_ip r.target) _ _
          (Avoids-ip r.target _ (λ ip. Avoids-geoip countries ip geoip g))
          (Avoids-domain r.target _ (first_safe (λ p. p.0) h) (λ d.
            Avoids-bind (lookup resolvers d) _ (Avoids-lookup resolvers d)
              (λ ip. Avoids-geoip countries ip geoip g)))

    meet_any-Avoids :
        (cs : Criteria) (network : Protocol) (r : RequestInfo)
        → AllSafe cs r ⊎ pan
        → Avoids pan (meet_any cs network r)
    meet_any-Avoids no_criteria network r h = tt
    meet_any-Avoids (criterion_and c rest) network r h =
        Avoids-bind (meet c network r) _ (meet-Avoids c network r (first_safe (λ p. p.0) h)) (λ met.
          Avoids-if met _ _ (λ _. tt)
            (λ _. meet_any-Avoids rest network r (first_safe (λ p. p.1) h)))

  pub match_criteria-Avoids :
      (cs : Criteria) (network : Protocol) (r : RequestInfo)
      → AllSafe cs r ⊎ pan
      → Avoids pan (match_criteria cs network r)
  unfolding match_criteria
  match_criteria-Avoids no_criteria network r h = tt
  match_criteria-Avoids (criterion_and c rest) network r h =
      Avoids-bind (meet c network r) _ (meet-Avoids c network r (first_safe (λ p. p.0) h)) (λ met.
        Avoids-if met _ _ (λ _. match_criteria-Avoids rest network r (first_safe (λ p. p.1) h))
          (λ _. tt))
