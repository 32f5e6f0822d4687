-- ===== src/LoadBalancer/Create.antt =====
-- app/proxy/loadbalancer.go: `NewLoadBalancer`. `url.Parse` is the parameter `url_parse`.
pub mod Fresh
pub mod Weights
pub mod Correct
use corridor.Prelude.{ℕ, List, [], ◌∷◌, Option, none, some, Result, ok, err, true, if◌then◌else◌}
use corridor.Prelude.Int.{ℤ, pos, leb_ℤ}
use corridor.Prelude.Text.{Text, text, ◌==◌, to_lower}
use corridor.Config.{ServiceConfig, LoadBalancingConfig, TargetConfig}
use corridor.LoadBalancer.Target.{Url, UpstreamTarget, Store, allocate, modify}
use corridor.LoadBalancer.Next.{
  LoadBalancer, round_robin, random, weighted_random, least_connections, weight_of,
}

pub data CreateError : Type 0 where
  targets_missing no_valid_targets : Text → CreateError

-- `t.Weight = 1` for a weight that is not positive.
unfoldable pub default_weight : ℕ → Store → Store
unfolding modify
default_weight a h =
    if leb_ℤ (weight_of h a) (pos 0) then modify a (λ t. record t { weight = pos 1 }) h else h

unfoldable pub default_weights : List ℕ → Store → Store
unfolding default_weight
default_weights [] h = h
default_weights (a ∷ ts) h = default_weights ts (default_weight a h)

-- The constructors of the four balancers; the generators of random numbers are left out.
abbrev pub new_round_robin_load_balancer : Text → List ℕ → LoadBalancer
new_round_robin_load_balancer name ts = round_robin name ts 0

abbrev pub new_random_load_balancer : Text → List ℕ → LoadBalancer
new_random_load_balancer name ts = random name ts

abbrev pub new_weighted_random_load_balancer : Text → List ℕ → LoadBalancer
new_weighted_random_load_balancer name ts = weighted_random name ts

abbrev pub new_least_connections_load_balancer : Text → List ℕ → LoadBalancer
new_least_connections_load_balancer name ts = least_connections name ts

-- The `switch` over the strategy, in lower case.
unfoldable pub select_balancer : Text → Text → List ℕ → Store → LoadBalancer × Store
unfolding default_weights ◌==◌
select_balancer name strategy ts h =
    if strategy == text "round-robin"
    then (new_round_robin_load_balancer name ts, h)
    else if strategy == text "random"
    then (new_random_load_balancer name ts, h)
    else if strategy == text "weighted"
    then (new_weighted_random_load_balancer name ts, default_weights ts h)
    else if strategy == text "least-connections"
    then (new_least_connections_load_balancer name ts, h)
    else (new_round_robin_load_balancer name ts, h)

abbrev pub new_target : Url → ℤ → UpstreamTarget
new_target url weight = record {
  url = url;
  healthy = true;
  weight = weight;
  active_connections = pos 0;
}

abbrev pub strategy_of : Option LoadBalancingConfig → Text
strategy_of none = []
strategy_of (some lb) = lb.strategy

abbrev pub targets_of : Option LoadBalancingConfig → List TargetConfig
targets_of none = []
targets_of (some lb) = lb.targets

-- No target is left, or the balancer over those that are.
abbrev pub finish : ServiceConfig → List ℕ × Store → Result CreateError (LoadBalancer × Store)
finish s ([], h) = err (no_valid_targets s.name)
finish s (a ∷ ts, h) =
    ok (select_balancer s.name (to_lower (strategy_of s.load_balancing)) (a ∷ ts) h)

module _ (url_parse : Text → Option Url) where
  -- The loop over the configured targets; one whose URL does not parse is skipped.
  unfoldable pub parse_targets : List TargetConfig → Store → List ℕ × Store
  unfolding allocate
  parse_targets [] h = ([], h)
  parse_targets (t ∷ cfgs) h =
      let skipped = parse_targets cfgs h in
      elim (url_parse t.url) [
        | none ↦ skipped
        | some url ↦
            let (a, h') = allocate (new_target url t.weight) h in
            let (ts, h'') = parse_targets cfgs h' in (a ∷ ts, h'')
      ]

  abbrev pub parsed_or_missing :
      ServiceConfig → List TargetConfig → Store → Result CreateError (LoadBalancer × Store)
  parsed_or_missing s [] h = err (targets_missing s.name)
  parsed_or_missing s (t ∷ cfgs) h = finish s (parse_targets (t ∷ cfgs) h)

  unfoldable pub new_load_balancer :
      ServiceConfig → Store → Result CreateError (LoadBalancer × Store)
  unfolding parse_targets select_balancer to_lower
  new_load_balancer s h = parsed_or_missing s (targets_of s.load_balancing) h
