-- ===== src/Router/Answers.antt =====
-- When the router answers, and when it rejects.
use shadowsocks.Base.{
  ℕ, ◌≡◌, refl, sym, ap, ◌∙◌, ◌↔◌, ◌⊎◌, inl, inr, List, [], ◌∷◌, ◌++◌, Option, none, some, All,
  subst,
}
use shadowsocks.Router.Request.{
  Protocol, protocol_tcp, protocol_udp, RequestInfo, Outcome, value, failed, panics, ◌>>=◌,
  rejected, no_available_resolvers, resolver_error, geoip_error, RouteError,
}
use shadowsocks.Router.Criteria.{no_criteria}
use shadowsocks.Router.Route.{
  Route, match_criteria, match_route, match_routes, get_tcp_client, get_udp_client,
  route_tcp_client, route_udp_client, client_or_rejected,
}
use shadowsocks.Router.Panics.{AllSafe, Avoids, Avoids-bind, Avoids-if, match_criteria-Avoids}

-- The routes of a router that `Config.Router` makes: those of the configuration, and the default route, which
-- has no criteria. All criteria are safe.
pub record IsComplete (routes : List Route) (r : RequestInfo) : Type 0 where
  pub configured : List Route
  pub default_route : Route
  pub split : routes ≡ configured ++ (default_route ∷ [])
  pub no_default_criteria : default_route.criteria ≡ no_criteria
  pub safe : All (λ route. AllSafe route.criteria r) configured

match_routes-Avoids_panic :
    (routes : List Route) (network : Protocol) (r : RequestInfo)
    → Avoids Unit (match_routes routes network r)
unfolding match_routes match_route
match_routes-Avoids_panic [] network r = tt
match_routes-Avoids_panic (x ∷ xs) network r =
    Avoids-bind Unit (match_criteria x.criteria network r) _
      (match_criteria-Avoids Unit x.criteria network r (inr tt))
      (λ m. Avoids-if Unit m _ _ (λ _. tt) (λ _. match_routes-Avoids_panic xs network r))

match_routes-Avoids :
    (configured : List Route) (d : Route) (network : Protocol) (r : RequestInfo)
    → d.criteria ≡ no_criteria
    → All (λ route. AllSafe route.criteria r) configured
    → Avoids ⊥ (match_routes (configured ++ (d ∷ [])) network r)
unfolding match_routes match_route match_criteria
match_routes-Avoids [] d network r e h = rw e tt
match_routes-Avoids (x ∷ xs) d network r e (s, h) =
    Avoids-bind ⊥ (match_criteria x.criteria network r) _
      (match_criteria-Avoids ⊥ x.criteria network r (inl s))
      (λ m. Avoids-if ⊥ m _ _ (λ _. tt) (λ _. match_routes-Avoids xs d network r e h))

-- A client or an error.
abbrev pub Answers : Outcome ℕ → Type 0
Answers o = ((client : ℕ) × (o ≡ value client)) ⊎ ((e : RouteError) × (o ≡ failed e))

Answers-by :
    (m : Outcome Route) (client : Route → Option ℕ)
    → Avoids ⊥ m
    → Answers (m >>= λ x. client_or_rejected (client x))
unfolding client_or_rejected
Answers-by (value x) client h = elim (client x) as (λ o. Answers (client_or_rejected o)) [
  | none ↦ inr (rejected, refl)
  | some c ↦ inl (c, refl)
]
Answers-by (failed e) client h = inr (e, refl)
Answers-by panics client h = elim h [ ]

-- The router always answers: on the routes of `Config.Router`, both `GetTCPClient` and `GetUDPClient` return a
-- client or an error, and do not panic, for a request on which no criterion panics.
pub get_client-Answers :
    (routes : List Route) (r : RequestInfo)
    → IsComplete routes r
    → Answers (get_tcp_client routes r) × Answers (get_udp_client routes r)
unfolding get_tcp_client get_udp_client route_tcp_client route_udp_client
get_client-Answers routes r c =
    let avoids : (network : Protocol) → Avoids ⊥ (match_routes routes network r) = λ network.
      subst (λ t. Avoids ⊥ (match_routes t network r)) (sym c.split)
        (match_routes-Avoids c.configured c.default_route network r c.no_default_criteria c.safe) in
    (
      Answers-by (match_routes routes protocol_tcp r) (λ x. x.tcp_client) (avoids protocol_tcp),
      Answers-by (match_routes routes protocol_udp r) (λ x. x.udp_client) (avoids protocol_udp),
    )

no_client : (o : Option ℕ) → client_or_rejected o ≡ failed rejected → o ≡ none
unfolding client_or_rejected
no_client none e = refl
no_client (some c) e = cc

value_inj : {x y : Route} → ◌≡◌ {A = Outcome Route} (value x) (value y) → x ≡ y
value_inj e = cc

rejected_by :
    (m : Outcome Route) (client : Route → Option ℕ)
    → Avoids Unit m
    → ((m >>= λ x. client_or_rejected (client x)) ≡ failed rejected)
      ↔ ((x : Route) × (m ≡ value x) × (client x ≡ none))
unfolding client_or_rejected
rejected_by (value x) client h = (
  λ e. (x, refl, no_client (client x) e),
  λ (y, e, n). ap client_or_rejected (ap client (value_inj e) ∙ n),
)
rejected_by (failed no_available_resolvers) client h = (λ e. cc, λ (y, e, n). cc)
rejected_by (failed rejected) client h = elim h [ ]
rejected_by (failed (resolver_error e)) client h = (λ e. cc, λ (y, e, n). cc)
rejected_by (failed (geoip_error e)) client h = (λ e. cc, λ (y, e, n). cc)
rejected_by panics client h = (λ e. cc, λ (y, e, n). cc)

-- A request is rejected exactly when the route that it is given to has no client for its network; no other
-- error is taken for a rejection.
pub get_client_rejected :
    (routes : List Route) (r : RequestInfo)
    → ((get_tcp_client routes r ≡ failed rejected)
        ↔ ((x : Route) × (match_routes routes protocol_tcp r ≡ value x) × (x.tcp_client ≡ none)))
      × ((get_udp_client routes r ≡ failed rejected)
          ↔ ((x : Route) × (match_routes routes protocol_udp r ≡ value x) × (x.udp_client ≡ none)))
unfolding get_tcp_client get_udp_client route_tcp_client route_udp_client
get_client_rejected routes r = (
  rejected_by (match_routes routes protocol_tcp r) (λ x. x.tcp_client)
      (match_routes-Avoids_panic routes protocol_tcp r),
  rejected_by (match_routes routes protocol_udp r) (λ x. x.udp_client)
      (match_routes-Avoids_panic routes protocol_udp r),
)
