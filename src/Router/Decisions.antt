-- ===== src/Router/Decisions.antt =====
-- What decides: the first criterion of a route that is not met, the first route that matches, the first
-- resolver that answers.
use shadowsocks.Base.{
  ◌≡◌, ◌≢◌, refl, sym, ap, ◌∙◌, ◌↔◌, Bool, true, false, if◌then◌else◌, List, [], ◌∷◌, Option, none,
  some, ℕ,
}
use shadowsocks.Addr.{Ip}
use shadowsocks.Router.First.{Decides, first, first_iff, Decides-map}
use shadowsocks.Router.Request.{
  Protocol, RequestInfo, Outcome, value, failed, panics, ◌>>=◌, Resolver, Lookup, found,
  lookup_failed, lookup_error, lookup, resolver_error, no_available_resolvers,
}
use shadowsocks.Router.Criteria.{Criterion, Criteria, no_criteria, criterion_and, meet}
use shadowsocks.Router.Route.{Route, match_criteria, match_route, match_routes}

abbrev pub to_list : Criteria → List Criterion
to_list no_criteria = []
to_list (criterion_and c rest) = c ∷ to_list rest

-- What a resolver's answer, a criterion's and a route's end the loop with.
abbrev answer : Lookup → Option (Outcome Ip)
answer (found ip) = some (value ip)
answer lookup_failed = none
answer (lookup_error e) = some (failed (resolver_error e))

abbrev unmet : Outcome Bool → Option (Outcome Bool)
unmet (value true) = none
unmet (value false) = some (value false)
unmet (failed e) = some (failed e)
unmet panics = some panics

abbrev matched : Route → Outcome Bool → Option (Outcome Route)
matched route (value true) = some (value route)
matched route (value false) = none
matched route (failed e) = some (failed e)
matched route panics = some panics

lookup-first :
    (rs : List Resolver) (domain : List ℕ)
    → lookup rs domain ≡ first (λ r. answer (r domain)) (failed no_available_resolvers) rs
unfolding lookup first
lookup-first [] domain = refl
lookup-first (r ∷ rs) domain =
    elim (r domain)
      as (λ l.
        elim l [
          | found ip ↦ value ip
          | lookup_failed ↦ lookup rs domain
          | lookup_error e ↦ failed (resolver_error e)
        ]
        ≡ elim (answer l) [
          | none ↦ first (λ r. answer (r domain)) (failed no_available_resolvers) rs
          | some b ↦ b
        ]) [ found ip ↦ refl | lookup_failed ↦ lookup-first rs domain | lookup_error e ↦ refl ]

match_criteria-first :
    (cs : Criteria) (network : Protocol) (r : RequestInfo)
    → match_criteria cs network r ≡ first (λ c. unmet (meet c network r)) (value true) (to_list cs)
unfolding match_criteria first
match_criteria-first no_criteria network r = refl
match_criteria-first (criterion_and c rest) network r =
    elim (meet c network r)
      as (λ o.
        (o >>= λ met. if met then match_criteria rest network r else value false) ≡ elim (unmet o) [
          | none ↦ first (λ c. unmet (meet c network r)) (value true) (to_list rest)
          | some b ↦ b
        ]) [
          | value true ↦ match_criteria-first rest network r
          | value false ↦ refl
          | failed e ↦ refl
          | panics ↦ refl
        ]

match_routes-first :
    (routes : List Route) (network : Protocol) (r : RequestInfo)
    → match_routes routes network r ≡ first (λ x. matched x (match_route x network r)) panics routes
unfolding match_routes first
match_routes-first [] network r = refl
match_routes-first (x ∷ xs) network r =
    elim (match_route x network r)
      as (λ o. (o >>= λ m. if m then value x else match_routes xs network r) ≡ elim (matched x o) [
        | none ↦ first (λ x. matched x (match_route x network r)) panics xs
        | some b ↦ b
      ]) [
        | value true ↦ refl
        | value false ↦ match_routes-first xs network r
        | failed e ↦ refl
        | panics ↦ refl
      ]

answer-none : (l : Lookup) → answer l ≡ none → l ≡ lookup_failed
answer-none (found ip) e = cc
answer-none lookup_failed e = refl
answer-none (lookup_error k) e = cc

answer-some : (l : Lookup) (ip : Ip) → answer l ≡ some (value ip) → l ≡ found ip
answer-some (found ip') ip e = cc
answer-some lookup_failed ip e = cc
answer-some (lookup_error k) ip e = cc

unmet-none : (o : Outcome Bool) → unmet o ≡ none → o ≡ value true
unmet-none (value true) e = refl
unmet-none (value false) e = cc
unmet-none (failed k) e = cc
unmet-none panics e = cc

unmet-some : (o o' : Outcome Bool) → unmet o ≡ some o' → o ≡ o'
unmet-some (value true) o' e = cc
unmet-some (value false) o' e = cc
unmet-some (failed k) o' e = cc
unmet-some panics o' e = cc

some-unmet : (o o' : Outcome Bool) → o' ≢ value true → o ≡ o' → unmet o ≡ some o'
some-unmet (value true) o' n e = absurd (n (sym e))
some-unmet (value false) o' n e = ap some e
some-unmet (failed k) o' n e = ap some e
some-unmet panics o' n e = ap some e

matched-none : (x : Route) (o : Outcome Bool) → matched x o ≡ none → o ≡ value false
matched-none x (value true) e = cc
matched-none x (value false) e = refl
matched-none x (failed k) e = cc
matched-none x panics e = cc

matched-some :
    (x route : Route) (o : Outcome Bool)
    → matched x o ≡ some (value route)
    → (o ≡ value true) × (x ≡ route)
matched-some x route (value true) e = (refl, cc)
matched-some x route (value false) e = cc
matched-some x route (failed k) e = cc
matched-some x route panics e = cc

-- A look-up gives an address exactly when it is that of the first resolver that does not fail with
-- `dns.ErrLookup`.
pub lookup_iff :
    (rs : List Resolver) (domain : List ℕ) (ip : Ip)
    → (lookup rs domain ≡ value ip)
      ↔ Decides (λ r. r domain ≡ lookup_failed) (λ r. r domain ≡ found ip) rs
lookup_iff rs domain ip =
    let (to, from) =
      first_iff (λ r. answer (r domain)) (failed no_available_resolvers) (value ip) rs (λ e. cc) in
    (
      λ e.
          Decides-map (λ r. answer-none (r domain)) (λ r. answer-some (r domain) ip)
            (to (sym (lookup-first rs domain) ∙ e)),
      λ d. lookup-first rs domain ∙ from (Decides-map (λ r. ap answer) (λ r. ap answer) d),
    )

-- A route that is not matched, or fails, is decided by a criterion: all before it are met, and its outcome
-- is the route's.
pub match_route_iff :
    (route : Route) (network : Protocol) (r : RequestInfo) (o : Outcome Bool)
    → o ≢ value true
    → (match_route route network r ≡ o)
      ↔ Decides
          (λ c. meet c network r ≡ value true)
          (λ c. meet c network r ≡ o)
          (to_list route.criteria)
unfolding match_route
match_route_iff route network r o n =
    let cs : Criteria = route.criteria in
    let (to, from) = first_iff (λ c. unmet (meet c network r)) (value true) o (to_list cs) n in
    (
      λ e.
          Decides-map (λ c. unmet-none (meet c network r)) (λ c. unmet-some (meet c network r) o)
            (to (sym (match_criteria-first cs network r) ∙ e)),
      λ d.
          match_criteria-first cs network r
          ∙ from (Decides-map (λ c. ap unmet) (λ c. some-unmet (meet c network r) o n) d),
    )

-- The router gives a route exactly when a request matches it, and each route before it is not matched and
-- does not fail.
pub match_routes_iff :
    (routes : List Route) (network : Protocol) (r : RequestInfo) (route : Route)
    → (match_routes routes network r ≡ value route)
      ↔ Decides
          (λ x. match_route x network r ≡ value false)
          (λ x. (match_route x network r ≡ value true) × (x ≡ route))
          routes
match_routes_iff routes network r route =
    let (to, from) =
      first_iff (λ x. matched x (match_route x network r)) panics (value route) routes (λ e. cc) in
    (
      λ e.
          Decides-map (λ x. matched-none x (match_route x network r))
            (λ x. matched-some x route (match_route x network r))
            (to (sym (match_routes-first routes network r) ∙ e)),
      λ d.
          match_routes-first routes network r
          ∙ from (
              Decides-map (λ x. ap (matched x))
                (λ x p. ap (matched x) p.0 ∙ ap (λ y. some (value y)) p.1) d),
    )
