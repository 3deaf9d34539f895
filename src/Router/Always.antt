-- ===== src/Router/Always.antt =====
-- A router that is made from its configuration answers.
use shadowsocks.Base.{ℕ, ◌≡◌, refl, subst, List, [], ◌∷◌, Option, All}
use shadowsocks.Router.Request.{IpSet, RequestInfo}
use shadowsocks.Router.Criteria.{no_criteria}
use shadowsocks.Router.Route.{Route, get_tcp_client, get_udp_client}
use shadowsocks.Router.Config.{
  RouteConfig, Environment, built, default_tcp_client_not_found, default_udp_client_not_found,
}
use shadowsocks.Router.Build.{default_name, build_route}
use shadowsocks.Router.Make.{default_client, build_routes, build_router}
use shadowsocks.Router.Panics.{AllSafe}
use shadowsocks.Router.Answers.{IsComplete, Answers, get_client-Answers}
use shadowsocks.Router.Makes.{Makes, Makes-bind, Makes-any}
use shadowsocks.Router.Safe.{IsOrdinary}
use shadowsocks.Router.SafeRoute.{build_route-AllSafe}

module _ (Prefix : Type 0) (ip_set_of : List Prefix → List IpSet → Option IpSet) where
  build_routes-AllSafe :
      (env : Environment) (rcs : List (RouteConfig Prefix)) (r : RequestInfo)
      → IsOrdinary Prefix ip_set_of env r
      → Makes
          (λ routes. All (λ route. AllSafe route.criteria r) routes)
          (build_routes Prefix ip_set_of env rcs)
  unfolding build_routes
  build_routes-AllSafe env [] r ok = tt
  build_routes-AllSafe env (rc ∷ rest) r ok =
      let safe : List Route → Type 0 = λ routes. All (λ route. AllSafe route.criteria r) routes in
      Makes-bind (λ route. AllSafe route.criteria r) safe (build_route Prefix ip_set_of env rc) _
        (build_route-AllSafe Prefix ip_set_of env rc r ok)
        (λ route h.
          Makes-bind safe safe (build_routes Prefix ip_set_of env rest) _
            (build_routes-AllSafe env rest r ok) (λ routes k. (h, k)))

  build_router-IsComplete :
      (env : Environment) (tcp_name udp_name : List ℕ) (rcs : List (RouteConfig Prefix))
      (r : RequestInfo)
      → IsOrdinary Prefix ip_set_of env r
      → Makes
          (λ routes. IsComplete routes r)
          (build_router Prefix ip_set_of env tcp_name udp_name rcs)
  unfolding build_router
  build_router-IsComplete env tcp_name udp_name rcs r ok =
      let complete : List Route → Type 0 = λ routes. IsComplete routes r in
      let tcp =
        default_client tcp_name default_tcp_client_not_found env.only_tcp_client
          env.tcp_client_map in
      let udp =
        default_client udp_name default_udp_client_not_found env.only_udp_client
          env.udp_client_map in
      Makes-bind (λ _. Unit) complete tcp _ (Makes-any tcp)
        (λ t _.
          Makes-bind (λ _. Unit) complete udp _ (Makes-any udp)
            (λ u _.
              Makes-bind (λ routes. All (λ route. AllSafe route.criteria r) routes) complete
                (build_routes Prefix ip_set_of env rcs) _ (build_routes-AllSafe env rcs r ok)
                (λ configured h. record {
                  configured = configured;
                  default_route = record {
                    name = default_name;
                    criteria = no_criteria;
                    tcp_client = t;
                    udp_client = u;
                  };
                  split = refl;
                  no_default_criteria = refl;
                  safe = h;
                })))

  -- A router that `Config.Router` makes always answers: for a request from a known server with a target, from a
  -- port and to a port that are not 0, both `GetTCPClient` and `GetUDPClient` return a client or an error,
  -- whatever the routes, the database, the resolvers and the sets are: no criterion panics, and a route matches.
  pub build_router-Answers :
      (env : Environment) (tcp_name udp_name : List ℕ) (rcs : List (RouteConfig Prefix))
      (r : RequestInfo) (routes : List Route)
      → IsOrdinary Prefix ip_set_of env r
      → build_router Prefix ip_set_of env tcp_name udp_name rcs ≡ built routes
      → Answers (get_tcp_client routes r) × Answers (get_udp_client routes r)
  build_router-Answers env tcp_name udp_name rcs r routes ok e = get_client-Answers routes r (
      subst (Makes (λ t. IsComplete t r)) e
        (build_router-IsComplete env tcp_name udp_name rcs r ok))
