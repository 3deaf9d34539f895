-- ===== src/Router/Route.antt =====
-- Routes and the router: `Route`, `CriterionGroupOR`, `Router` and their methods. Clients are numbers, `none` is `nil`.
use shadowsocks.Base.{ℕ, Bool, true, false, if◌then◌else◌, List, [], ◌∷◌, Option, none, some}
use shadowsocks.Router.Request.{
  Protocol, protocol_tcp, protocol_udp, RequestInfo, Outcome, value, failed, panics, rejected,
  ◌>>=◌,
}
use shadowsocks.Router.Criteria.{
  Criterion, inverted, group_or, Criteria, no_criteria, criterion_and, meet,
}

-- `append` of one criterion.
unfoldable pub append_criterion : Criteria → Criterion → Criteria
append_criterion no_criteria c = criterion_and c no_criteria
append_criterion (criterion_and d rest) c = criterion_and d (append_criterion rest c)

-- `Route`
pub record Route : Type 0 where
  pub name : List ℕ
  pub criteria : Criteria
  pub tcp_client : Option ℕ
  pub udp_client : Option ℕ

-- The criterion that `AddCriterion` appends.
abbrev pub maybe_inverted : Criterion → Bool → Criterion
maybe_inverted criterion invert = if invert then inverted criterion else criterion

-- `Route.AddCriterion`
unfoldable pub add_criterion : Route → Criterion → Bool → Route
add_criterion r criterion invert = record r {
  criteria = append_criterion r.criteria (maybe_inverted criterion invert);
}

-- The loop of `Route.Match`.
unfoldable pub match_criteria : Criteria → Protocol → RequestInfo → Outcome Bool
match_criteria no_criteria network r = value true
match_criteria (criterion_and criterion rest) network r =
    let of_rest = match_criteria rest network r in
    (do met ← meet criterion network r; if met then of_rest else value false)

-- `Route.Match`
unfoldable pub match_route : Route → Protocol → RequestInfo → Outcome Bool
match_route route network r = match_criteria route.criteria network r

-- `TCPClient` and `UDPClient`
unfoldable pub client_or_rejected : Option ℕ → Outcome ℕ
client_or_rejected none = failed rejected
client_or_rejected (some client) = value client

unfoldable pub route_tcp_client : Route → Outcome ℕ
route_tcp_client r = client_or_rejected r.tcp_client

unfoldable pub route_udp_client : Route → Outcome ℕ
route_udp_client r = client_or_rejected r.udp_client

-- `CriterionGroupOR.AddCriterion`
unfoldable pub group_add_criterion : Criteria → Criterion → Bool → Criteria
group_add_criterion g criterion invert = append_criterion g (maybe_inverted criterion invert)

-- `CriterionGroupOR.Criterion`; `none` is `nil`.
unfoldable pub group_criterion : Criteria → Option Criterion
group_criterion no_criteria = none
group_criterion (criterion_and c no_criteria) = some c
group_criterion (criterion_and c (criterion_and d rest)) =
    some (group_or (criterion_and c (criterion_and d rest)))

-- `CriterionGroupOR.AppendTo`
unfoldable pub group_append_to : Criteria → Criteria → Criteria
group_append_to no_criteria criteria = criteria
group_append_to (criterion_and c no_criteria) criteria = append_criterion criteria c
group_append_to (criterion_and c (criterion_and d rest)) criteria =
    append_criterion criteria (group_or (criterion_and c (criterion_and d rest)))

-- `Router.match`, over the routes of the router.
unfoldable pub match_routes : List Route → Protocol → RequestInfo → Outcome Route
match_routes [] network r = panics
match_routes (route ∷ routes) network r =
    let of_rest = match_routes routes network r in
    (do matched ← match_route route network r; if matched then value route else of_rest)

-- `GetTCPClient`
unfoldable pub get_tcp_client : List Route → RequestInfo → Outcome ℕ
get_tcp_client routes r = do route ← match_routes routes protocol_tcp r; route_tcp_client route

-- `GetUDPClient`
unfoldable pub get_udp_client : List Route → RequestInfo → Outcome ℕ
get_udp_client routes r = do route ← match_routes routes protocol_udp r; route_udp_client route
