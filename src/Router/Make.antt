-- ===== src/Router/Make.antt =====
-- `Config.Router`: the routes of the configuration, and the default route behind them.
use shadowsocks.Base.{ℕ, if◌then◌else◌, bytes_eq, List, [], ◌∷◌, ◌++◌, Option, none, some}
use shadowsocks.Router.Request.{IpSet}
use shadowsocks.Router.Criteria.{no_criteria}
use shadowsocks.Router.Route.{Route}
use shadowsocks.Router.Config.{
  RouteConfig, Environment, ConfigError, default_tcp_client_not_found, default_udp_client_not_found,
  Built, built, ◌>>=◌, or_refuse,
}
use shadowsocks.Router.Build.{default_name, reject_name, build_route}

-- The client of the default route, by its name: none, the only one of the map, or the named one.
unfoldable pub default_client :
    List ℕ → ConfigError → Option ℕ → (List ℕ → Option ℕ) → Built (Option ℕ)
default_client name e only client_map =
    if bytes_eq name reject_name
    then built none
    else if bytes_eq name []
    then built only
    else (do client ← or_refuse e (client_map name); built (some client))

module _ (Prefix : Type 0) (ip_set_of : List Prefix → List IpSet → Option IpSet) where
  -- The loop over `Routes`.
  unfoldable pub build_routes : Environment → List (RouteConfig Prefix) → Built (List Route)
  build_routes env [] = built []
  build_routes env (rc ∷ rest) = do
    route ← build_route Prefix ip_set_of env rc
    routes ← build_routes env rest
    built (route ∷ routes)

  -- `Config.Router`, where the database and the sets are loaded.
  unfoldable pub build_router :
      Environment → List ℕ → List ℕ → List (RouteConfig Prefix) → Built (List Route)
  build_router env tcp_name udp_name routes = do
    tcp_client ←
        default_client tcp_name default_tcp_client_not_found env.only_tcp_client env.tcp_client_map
    udp_client ←
        default_client udp_name default_udp_client_not_found env.only_udp_client env.udp_client_map
    configured ← build_routes env routes
    built (
        configured
        ++ (record {
          name = default_name;
          criteria = no_criteria;
          tcp_client = tcp_client;
          udp_client = udp_client;
        }
            ∷ []))
