-- ===== src/Router.antt =====
-- app/router/router.go: route matching and the plugin chain of each route. `H` is `http.Handler`.
-- A log line changes nothing here and is left out; a nil proxy handler ends the program in
-- `NewRouter`, so the handler is not optional.
pub mod Matching
pub mod Paths
pub mod Hosts
pub mod Selection
pub mod Handlers
pub mod Serve
use corridor.Prelude.{
  List, [], ◌∷◌, Option, none, some, Bool, true, false, ◌||◌, Result, ok, err, ◌>>=◌, if◌then◌else◌,
}
use corridor.Prelude.Text.{Text}
use corridor.Prelude.Dict.{Dict, lookup, insert}
use corridor.Config.{Config, RouteConfig, ServiceConfig, PluginsConfig, PluginInstanceConfig}
use corridor.Plugin.{
  Plugin, PluginError, not_registered, init_failed, init_panics, Registry, get_plugin_instance,
  chain_plugins,
}
use Matching.{Request, match_route}

-- What the router leaves in the request's context.
pub record MatchedRouteInfo : Type 0 where
  pub route_config : RouteConfig
  pub service_config : ServiceConfig

pub record Router (H : Type 0) : Type 0 where
  pub routes : List RouteConfig
  pub service_map : Dict ServiceConfig
  pub proxy_handler : H
  pub route_handlers : Dict H

-- The answer of `ServeHTTP`: the handler that is called with the matched route in the context, or
-- `http.NotFound`.
pub data Served (H : Type 0) : Type 0 where
  serves : MatchedRouteInfo → H → Served H
  not_found : Served H

-- `serviceMap[cfg.Services[i].Name] = &cfg.Services[i]`, in the order of the services.
unfoldable pub build_service_map : List ServiceConfig → Dict ServiceConfig → Dict ServiceConfig
build_service_map [] m = m
build_service_map (s ∷ ss) m = build_service_map ss (insert s.name s m)

-- The loop of `ServeHTTP`: the first route that matches and whose service is known.
unfoldable pub find_route :
    List RouteConfig → Dict ServiceConfig → Request → Option MatchedRouteInfo
find_route [] services req = none
find_route (r ∷ rs) services req =
    let rest = find_route rs services req in
    if match_route r req
    then (elim (lookup r.service services) [
      | none ↦ rest
      | some s ↦ some (record { route_config = r; service_config = s })
    ])
    else rest

module _ {H : Type 0} where
  -- The loop of `buildPluginChain` over the route's plugins.
  unfoldable pub instances :
      Registry H → PluginsConfig → List PluginInstanceConfig → Result PluginError (List (Plugin H))
  instances registry global [] = ok []
  instances registry global (c ∷ cs) = do
    p ← get_plugin_instance registry global c
    ps ← instances registry global cs
    ok (p ∷ ps)

  unfoldable pub build_plugin_chain :
      Registry H → PluginsConfig → RouteConfig → H → Result PluginError H
  build_plugin_chain registry global route proxy = do
    ps ← instances registry global route.plugins
    ok (chain_plugins ps proxy)

  -- A route whose chain fails has no handler of its own.
  abbrev pub keep_chain : Text → Result PluginError H → Dict H → Dict H
  keep_chain id (ok chained) handlers = insert id chained handlers
  keep_chain id (err e) handlers = handlers

  unfoldable pub build_route_handlers :
      Registry H → PluginsConfig → H → List RouteConfig → Dict H → Dict H
  build_route_handlers registry global proxy [] handlers = handlers
  build_route_handlers registry global proxy (r ∷ rs) handlers =
      build_route_handlers registry global proxy rs
        (keep_chain r.id (build_plugin_chain registry global r proxy) handlers)

  -- Whether the making of a chain ends the program.
  abbrev pub ends_program : Result PluginError H → Bool
  ends_program (ok chained) = false
  ends_program (err (not_registered name)) = false
  ends_program (err (init_failed name message)) = false
  ends_program (err (init_panics name)) = true

  -- Whether the loop of `buildRouteHandlers` comes to a panic.
  unfoldable pub panics_in : Registry H → PluginsConfig → H → List RouteConfig → Bool
  panics_in registry global proxy [] = false
  panics_in registry global proxy (r ∷ rs) =
      ends_program (build_plugin_chain registry global r proxy)
      || panics_in registry global proxy rs

  -- The router, where no plugin panics.
  unfoldable pub router_of : Registry H → Config → H → Router H
  router_of registry cfg proxy = record {
    routes = cfg.routes;
    service_map = build_service_map cfg.services [];
    proxy_handler = proxy;
    route_handlers = build_route_handlers registry cfg.plugins proxy cfg.routes [];
  }

  -- `NewRouter`; `none` where the program ends in it.
  unfoldable pub new_router : Registry H → Config → H → Option (Router H)
  unfolding router_of panics_in
  new_router registry cfg proxy =
      if panics_in registry cfg.plugins proxy cfg.routes
      then none
      else some (router_of registry cfg proxy)

  abbrev pub handler_of : Router H → Option H → H
  handler_of rt none = rt.proxy_handler
  handler_of rt (some chained) = chained

  abbrev pub answer : Router H → Option MatchedRouteInfo → Served H
  answer rt none = not_found
  answer rt (some info) =
      serves info (handler_of rt (lookup info.route_config.id rt.route_handlers))

  unfoldable pub serve_http : Router H → Request → Served H
  serve_http rt req = answer rt (find_route rt.routes rt.service_map req)
