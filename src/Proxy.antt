-- ===== src/Proxy.antt =====
-- app/proxy/proxy.go: the balancers and what the proxy does with a request around the
-- forwarding itself, which is `httputil.ReverseProxy`'s. `url.Parse` and `URL.String` are
-- parameters.
pub mod Health
pub mod Joining
pub mod Director
pub mod Transport
pub mod Forwarding
use corridor.Prelude.{
  ℕ, List, [], ◌∷◌, Option, none, some, Result, ok, err, ◌>>=◌, Bool, true, false, if◌then◌else◌,
}
use corridor.Prelude.Text.{Text, ◌==◌}
use corridor.Prelude.Dict.{Dict, lookup, insert}
use corridor.Config.{Config, GlobalConfig, ServiceConfig, LoadBalancingConfig}
use corridor.Config.Validate.{lacks_targets}
use corridor.LoadBalancer.Target.{Url, Store, set_health}
use corridor.LoadBalancer.Next.{
  LoadBalancer, round_robin, random, weighted_random, least_connections,
}
use corridor.LoadBalancer.Create.{CreateError, new_load_balancer}

abbrev pub Balancers : Type 0
Balancers = Dict LoadBalancer

-- `*cfg.Global.FailOnServiceInitError`, lenient when it is nil.
abbrev pub fails_strictly : Option Bool → Bool
fails_strictly none = false
fails_strictly (some b) = b

module _ (url_parse : Text → Option Url) where
  -- A balancer that could not be made stops a strict start-up, and is left out otherwise.
  abbrev pub add_balancer :
      Bool
      → Text
      → Balancers
      → Store
      → Result CreateError (LoadBalancer × Store)
      → Result CreateError (Balancers × Store)
  add_balancer strict name lbs h (ok (lb, h')) = ok (insert name lb lbs, h')
  add_balancer strict name lbs h (err e) = if strict then err e else ok (lbs, h)

  -- The loop of `NewProxy` over the services; one without targets is passed over.
  unfoldable pub build_balancers :
      Bool → List ServiceConfig → Balancers → Store → Result CreateError (Balancers × Store)
  build_balancers strict [] lbs h = ok (lbs, h)
  build_balancers strict (s ∷ ss) lbs h =
      (if lacks_targets s.load_balancing
        then ok (lbs, h)
        else add_balancer strict s.name lbs h (new_load_balancer url_parse s h))
      >>= λ (lbs', h'). build_balancers strict ss lbs' h'

  unfoldable pub new_proxy : Config → Store → Result CreateError (Balancers × Store)
  new_proxy cfg h =
      build_balancers (fails_strictly cfg.global.fail_on_service_init_error) cfg.services [] h

module _ (url_string : Url → Text) where
  -- The loop over a balancer's targets, up to the first one with the URL.
  unfoldable pub update_first : Text → Bool → List ℕ → Store → Store
  update_first target_url healthy [] h = h
  update_first target_url healthy (a ∷ ts) h =
      let rest = update_first target_url healthy ts h in
      if url_string (h.cell a).url == target_url then set_health healthy a h else rest

  -- The `switch` over the balancer's type, which has two cases.
  unfoldable pub update_balancer : Text → Bool → LoadBalancer → Store → Store
  update_balancer target_url healthy (round_robin name ts i) h =
      update_first target_url healthy ts h
  update_balancer target_url healthy (random name ts) h = update_first target_url healthy ts h
  update_balancer target_url healthy _ h = h

  abbrev pub update_found : Text → Bool → Option LoadBalancer → Store → Store
  update_found target_url healthy none h = h
  update_found target_url healthy (some lb) h = update_balancer target_url healthy lb h

  unfoldable pub update_target_health : Balancers → Text → Text → Bool → Store → Store
  update_target_health lbs service target_url healthy h =
      update_found target_url healthy (lookup service lbs) h
