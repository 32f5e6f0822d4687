-- ===== src/Proxy/Forwarding.antt =====
-- app/proxy/proxy.go: `ServeHTTP` up to the hand-over to `httputil.ReverseProxy`, and the end of a
-- round trip. `intn` is what `rand.Intn` returns during one call.
pub mod Counting
pub mod Traffic
pub mod Connections
use corridor.Prelude.{ℕ, Option, none, some, Result, ok, err}
use corridor.Prelude.Text.{Text}
use corridor.Prelude.Dict.{lookup, insert}
use corridor.LoadBalancer.Target.{Store, increment_active_connections, decrement_active_connections}
use corridor.LoadBalancer.Next.{
  LoadBalancer, NextError, no_targets, no_healthy, panics, Picked, next,
}
use corridor.Router.{MatchedRouteInfo}
use corridor.Proxy.{Balancers}

-- The status codes 500, 502 and 503, the hand-over to the target at an address, and a panic.
pub data Forward : Type 0 where
  internal_server_error bad_gateway service_unavailable crashes : Forward
  forwards : ℕ → Forward

-- What requests share.
pub record Shared : Type 0 where
  pub balancers : Balancers
  pub store : Store

abbrev failed : NextError → Forward
failed no_targets = service_unavailable
failed no_healthy = service_unavailable
failed panics = crashes

-- The balancer's answer, with the balancer after it. The increment stands right before the
-- hand-over, at the end of `ServeHTTP`.
abbrev pub picked : Text → Shared → Picked × LoadBalancer → Forward × Shared
picked name g (err e, lb) = (failed e, record g { balancers = insert name lb g.balancers })
picked name g (ok a, lb) = (
  forwards a,
  record { balancers = insert name lb g.balancers; store = increment_active_connections a g.store },
)

abbrev pub choose : (ℕ → ℕ) → Text → Shared → Option LoadBalancer → Forward × Shared
choose intn name g none = (bad_gateway, g)
choose intn name g (some lb) = picked name g (next g.store intn lb)

-- The start of `ServeHTTP`, with what the context holds of the route.
unfoldable pub serve_request : (ℕ → ℕ) → Option MatchedRouteInfo → Shared → Forward × Shared
serve_request intn none g = (internal_server_error, g)
serve_request intn (some info) g =
    choose intn info.service_config.name g (lookup info.service_config.name g.balancers)

-- The deferred call of `RoundTrip`.
unfoldable pub end_round_trip : ℕ → Shared → Shared
end_round_trip a g = record g { store = decrement_active_connections a g.store }
