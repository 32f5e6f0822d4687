-- ===== src/Router/Serve.antt =====
-- What `ServeHTTP` answers, in a gateway whose configuration passed its checks.
use corridor.Prelude.{
  ◌≡◌, ◌↔◌, refl, sym, ◌∙◌, ap, subst, [], Option, none, some, In, Option-cases, Bool-cases, false,
  some-injective, inl, inr,
}
use corridor.Prelude.Dict.{lookup, lookup-nil}
use corridor.Config.{Config}
use corridor.Config.Validate.Loops.{IsWellFormed}
use corridor.Plugin.{Registry}
use corridor.Router.Matching.{Request}
use corridor.Router.Selection.{FirstMatch, find_route_iff}
use corridor.Router.Handlers.{own_chain, In-middle, route_handlers_finds}
use corridor.Router.{
  MatchedRouteInfo, Served, serves, not_found, Router, build_service_map, find_route,
  build_plugin_chain, router_of, new_router, panics_in, handler_of, answer, serve_http,
}

abbrev pub chain_or_proxy : {H : Type 0} → H → Option H → H
chain_or_proxy proxy none = proxy
chain_or_proxy proxy (some chained) = chained

serves-injective :
    {H : Type 0} {i j : MatchedRouteInfo} {h k : H}
    → ◌≡◌ {A = Served H} (serves i h) (serves j k)
    → (i ≡ j) × (h ≡ k)
serves-injective e = (cc, cc)

handler_or_proxy :
    {H : Type 0} (rt : Router H) (o : Option H)
    → handler_of rt o ≡ chain_or_proxy rt.proxy_handler o
handler_or_proxy rt none = refl
handler_or_proxy rt (some chained) = refl

module _ {H : Type 0} (registry : Registry H) (cfg : Config) (proxy : H)
    (w : IsWellFormed cfg) where
  -- The handler that the router keeps for a selected route.
  serve_selected :
      (req : Request) (info : MatchedRouteInfo)
      → FirstMatch (build_service_map cfg.services []) req cfg.routes info
      → serve_http (router_of registry cfg proxy) req
        ≡ serves info (
            chain_or_proxy proxy
              (own_chain (build_plugin_chain registry cfg.plugins info.route_config proxy)))
  unfolding serve_http router_of
  serve_selected req info f =
      let found = (find_route_iff (build_service_map cfg.services []) req cfg.routes info).1 f in
      let listed : In info.route_config cfg.routes =
        subst (In info.route_config) (sym f.splits) (In-middle f.pre f.post info.route_config) in
      let kept =
        route_handlers_finds registry cfg.plugins proxy cfg.routes [] info.route_config w.ids listed
          (lookup-nil info.route_config.id) in
      let rt = router_of registry cfg proxy in
      ap (answer rt) found
      ∙ ap (serves info) (
          handler_or_proxy rt (lookup info.route_config.id rt.route_handlers)
          ∙ ap (chain_or_proxy proxy) kept)

  serve_unselected :
      (req : Request)
      → find_route cfg.routes (build_service_map cfg.services []) req ≡ none
      → serve_http (router_of registry cfg proxy) req ≡ not_found
  unfolding serve_http router_of
  serve_unselected req none_found = ap (answer (router_of registry cfg proxy)) none_found

  serve_sound :
      (req : Request) (info : MatchedRouteInfo) (h : H)
      → serve_http (router_of registry cfg proxy) req ≡ serves info h
      → FirstMatch (build_service_map cfg.services []) req cfg.routes info
        × (h
            ≡ chain_or_proxy proxy
                (own_chain (build_plugin_chain registry cfg.plugins info.route_config proxy)))
  serve_sound req info h e =
      elim (Option-cases (find_route cfg.routes (build_service_map cfg.services []) req)) [
        | inl none_found ↦ let d = serve_unselected req none_found in absurd (cc)
        | inr (found_info, found) ↦
            let f =
              (find_route_iff (build_service_map cfg.services []) req cfg.routes found_info).0
                found in
            let (same, run) = serves-injective (sym e ∙ serve_selected req found_info f) in
            (
              subst (FirstMatch (build_service_map cfg.services []) req cfg.routes) (sym same) f,
              run
                  ∙ ap
                      (λ i.
                        chain_or_proxy proxy (
                          own_chain (build_plugin_chain registry cfg.plugins i.route_config proxy)))
                      (sym same),
            )
      ]

-- A router that `NewRouter` returns.
pub new_router-router_of :
    {H : Type 0} (registry : Registry H) (cfg : Config) (proxy : H) (rt : Router H)
    → new_router registry cfg proxy ≡ some rt
    → (panics_in registry cfg.plugins proxy cfg.routes ≡ false)
      × (rt ≡ router_of registry cfg proxy)
unfolding new_router
new_router-router_of registry cfg proxy rt made =
    elim (Bool-cases (panics_in registry cfg.plugins proxy cfg.routes)) [
      | inl dead ↦ let f = rw dead at made in absurd (cc)
      | inr calm ↦ (calm, sym (some-injective (rw calm at made)))
    ]

-- In a gateway whose configuration passed its checks and whose router could be made, a request is
-- served for a route and a service exactly when these are the first match, and then by the chain
-- of the route's own plugins around the proxy; if one of the plugins could not be made, it is
-- served by the bare proxy.
pub serve_http_iff :
    {H : Type 0} (registry : Registry H) (cfg : Config) (proxy : H) (rt : Router H) (req : Request)
    (info : MatchedRouteInfo) (h : H)
    → IsWellFormed cfg
    → new_router registry cfg proxy ≡ some rt
    → (serve_http rt req ≡ serves info h) ↔ (
        FirstMatch (build_service_map cfg.services []) req cfg.routes info
        × (h
            ≡ chain_or_proxy proxy
                (own_chain (build_plugin_chain registry cfg.plugins info.route_config proxy))))
serve_http_iff registry cfg proxy rt req info h w made =
    let same = (new_router-router_of registry cfg proxy rt made).1 in
    (
      λ served.
          serve_sound registry cfg proxy w req info h
            (ap (λ x. serve_http x req) (sym same) ∙ served),
      λ (f, e).
          ap (λ x. serve_http x req) same
          ∙ serve_selected registry cfg proxy w req info f
          ∙ ap (serves info) (sym e),
    )
