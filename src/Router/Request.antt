-- ===== src/Router/Request.antt =====
-- The request that is routed (`RequestInfo`), the outcome of a step of the routing, and the look-up of names.
use shadowsocks.Base.{ℕ, Bool, if◌then◌else◌, List, [], ◌∷◌, Option, none, some}
use shadowsocks.Addr.{Ip, v4, AddrPort, Addr, is_4, as_4}

-- `protocol`
pub data Protocol : Type 0 where
  protocol_tcp protocol_udp : Protocol

-- `RequestInfo`
pub record RequestInfo : Type 0 where
  pub server_index : ℕ
  pub username : List ℕ
  pub source : AddrPort
  pub target : Addr

-- The errors: `errNoAvailableResolvers`, `ErrRejected`, and those of a resolver and of the GeoIP database,
-- by a number.
pub data RouteError : Type 0 where
  no_available_resolvers : RouteError
  rejected : RouteError
  resolver_error : ℕ → RouteError
  geoip_error : ℕ → RouteError

-- A result, an error, or a panic.
pub data Outcome (A : Type 0) : Type 0 where
  value : A → Outcome A
  failed : RouteError → Outcome A
  panics : Outcome A

infixl 5 ◌>>=◌
abbrev pub ◌>>=◌ : {A B : Type 0} → Outcome A → (A → Outcome B) → Outcome B
value a >>= f = f a
failed e >>= f = failed e
panics >>= f = panics

-- A method that panics on some arguments.
abbrev pub or_panic : {A : Type 0} → Option A → Outcome A
or_panic none = panics
or_panic (some a) = value a

-- What `LookupIP` of a resolver returns: `lookup_failed` is `dns.ErrLookup`.
pub data Lookup : Type 0 where
  found : Ip → Lookup
  lookup_failed : Lookup
  lookup_error : ℕ → Lookup

-- `dns.SimpleResolver`
abbrev pub Resolver : Type 0
Resolver = List ℕ → Lookup

-- `lookup`: the first resolver that does not fail with `dns.ErrLookup` decides.
unfoldable pub lookup : List Resolver → List ℕ → Outcome Ip
lookup [] domain = failed no_available_resolvers
lookup (resolver ∷ resolvers) domain = elim (resolver domain) [
  | found ip ↦ value ip
  | lookup_failed ↦ lookup resolvers domain
  | lookup_error e ↦ failed (resolver_error e)
]

-- `netip.Addr.Unmap`
abbrev pub unmap : Ip → Ip
unmap ip = if is_4 ip then v4 (as_4 ip) else ip

-- `domainset.DomainSet`, by its `Match`.
abbrev pub DomainMatch : Type 0
DomainMatch = List ℕ → Bool

-- `netipx.IPSet`, by its `Contains`.
abbrev pub IpSet : Type 0
IpSet = Ip → Bool

-- What `Country` of a GeoIP database gives: an error or the ISO code of the country.
pub data Country : Type 0 where
  country : List ℕ → Country
  country_error : ℕ → Country

-- `*geoip2.Reader`; `none` is `nil`, a call of which panics.
abbrev pub GeoIp : Type 0
GeoIp = Option (Ip → Country)
