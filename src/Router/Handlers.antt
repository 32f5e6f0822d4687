-- ===== src/Router/Handlers.antt =====
-- Which handler a matched route is served by, in a gateway whose configuration passed its checks.
use corridor.Prelude.{
  ◌≡◌, ◌≢◌, inl, inr, refl, sym, ◌∙◌, ap, subst, List, [], ◌∷◌, ◌++◌, Option, none, some, Result,
  ok, err, In, All-In, arith,
}
use corridor.Prelude.Text.{Text, eq_iff}
use corridor.Prelude.Dict.{Dict, lookup, insert, lookup-insert, lookup-insert_self}
use corridor.Config.{Config, RouteConfig, ServiceConfig, PluginsConfig}
use corridor.Config.Validate.Loops.{Distinct, IsWellFormed, service_names, route_ids}
use corridor.Plugin.{PluginError, Registry}
use corridor.Router.{build_service_map, build_plugin_chain, keep_chain, build_route_handlers}

pub In-middle : {A : Type 0} (pre post : List A) (x : A) → In x (pre ++ (x ∷ post))
In-middle [] post x = inl refl
In-middle (y ∷ pre) post x = inr (In-middle pre post x)

lookup_other :
    {V : Type 0} (k j : Text) (v : V) (m : Dict V) → k ≢ j → lookup j (insert k v m) ≡ lookup j m
lookup_other k j v m other = lookup-insert k j v m ∙ ground (arith, eq_iff k j)

-- The service map of services with distinct names finds each by its name.
service_map_other :
    (ss : List ServiceConfig) (m : Dict ServiceConfig) (n : Text)
    → ¬ In n (service_names ss)
    → lookup n (build_service_map ss m) ≡ lookup n m
unfolding build_service_map
service_map_other [] m n out = refl
service_map_other (s ∷ ss) m n out =
    service_map_other ss (insert s.name s m) n (λ k. out (inr k))
    ∙ lookup_other s.name n s m (λ e. out (inl (sym e)))

service_map_finds :
    (ss : List ServiceConfig) (m : Dict ServiceConfig) (n : Text)
    → Distinct (service_names ss)
    → In n (service_names ss)
    → (s : ServiceConfig) × (lookup n (build_service_map ss m) ≡ some s) × (s.name ≡ n)
unfolding build_service_map
service_map_finds [] m n d k = absurd k
service_map_finds (s ∷ ss) m n (out, d) (inl e) = (
  s,
  ap (λ j. lookup j (build_service_map ss (insert s.name s m))) e
      ∙ service_map_other ss (insert s.name s m) s.name out
      ∙ lookup-insert_self s.name s m,
  sym e,
)
service_map_finds (s ∷ ss) m n (out, d) (inr k) = service_map_finds ss (insert s.name s m) n d k

-- In a configuration that passed its checks the router finds the service of every route, so its
-- loop passes over a route only if the route does not cover the request.
pub route_service_known :
    (cfg : Config) (r : RouteConfig)
    → IsWellFormed cfg
    → In r cfg.routes
    → (s : ServiceConfig) × (lookup r.service (build_service_map cfg.services []) ≡ some s)
      × (s.name ≡ r.service)
route_service_known cfg r w m =
    let (_, _, named) = All-In _ cfg.routes r w.routes m in
    service_map_finds cfg.services [] r.service w.names named

-- The route's plugins around the proxy, if all of them could be made.
abbrev pub own_chain : {H : Type 0} → Result PluginError H → Option H
own_chain (ok chained) = some chained
own_chain (err e) = none

In-route_ids : (rs : List RouteConfig) (r : RouteConfig) → In r rs → In r.id (route_ids rs)
In-route_ids [] r m = m
In-route_ids (x ∷ rs) r (inl e) = inl (ap (λ t. t.id) e)
In-route_ids (x ∷ rs) r (inr m) = inr (In-route_ids rs r m)

module _ {H : Type 0} (registry : Registry H) (global : PluginsConfig) (proxy : H) where
  keep_chain_self :
      (id : Text) (c : Result PluginError H) (hs : Dict H)
      → lookup id hs ≡ none
      → lookup id (keep_chain id c hs) ≡ own_chain c
  keep_chain_self id (ok chained) hs e = lookup-insert_self id chained hs
  keep_chain_self id (err _) hs e = e

  keep_chain_other :
      (id j : Text) (c : Result PluginError H) (hs : Dict H)
      → id ≢ j
      → lookup j (keep_chain id c hs) ≡ lookup j hs
  keep_chain_other id j (ok chained) hs other = lookup_other id j chained hs other
  keep_chain_other id j (err _) hs other = refl

  route_handlers_other :
      (rs : List RouteConfig) (hs : Dict H) (id : Text)
      → ¬ In id (route_ids rs)
      → lookup id (build_route_handlers registry global proxy rs hs) ≡ lookup id hs
  unfolding build_route_handlers
  route_handlers_other [] hs id out = refl
  route_handlers_other (r ∷ rs) hs id out =
      route_handlers_other rs _ id (λ k. out (inr k))
      ∙ keep_chain_other r.id id (build_plugin_chain registry global r proxy) hs
          (λ e. out (inl (sym e)))

  pub route_handlers_finds :
      (rs : List RouteConfig) (hs : Dict H) (r : RouteConfig)
      → Distinct (route_ids rs)
      → In r rs
      → lookup r.id hs ≡ none
      → lookup r.id (build_route_handlers registry global proxy rs hs)
        ≡ own_chain (build_plugin_chain registry global r proxy)
  unfolding build_route_handlers
  route_handlers_finds [] hs r d m e = absurd m
  route_handlers_finds (x ∷ rs) hs r (out, d) (inl same) e =
      route_handlers_other rs _ r.id (λ k. out (subst (λ t. In t.id (route_ids rs)) same k))
      ∙ ap (λ t. lookup r.id (keep_chain t.id (build_plugin_chain registry global t proxy) hs))
          (sym same)
      ∙ keep_chain_self r.id (build_plugin_chain registry global r proxy) hs e
  route_handlers_finds (x ∷ rs) hs r (out, d) (inr m) e = route_handlers_finds rs _ r d m (
      keep_chain_other x.id r.id (build_plugin_chain registry global x proxy) hs
        (λ f. out (subst (λ t. In t (route_ids rs)) (sym f) (In-route_ids rs r m)))
      ∙ e)
