-- ===== src/Tests/Health.antt =====
-- Health checks of a service's targets, as the proxy sees them, and the joining of its paths.
use corridor.Prelude.{
  ℕ, ◌≡◌, ok, refl, List, [], ◌∷◌, ◌++◌, true, false, some, arith, eqb, if◌then◌else◌,
}
use corridor.Prelude.Int.{pos}
use corridor.Prelude.Text.{Text, text, ◌==◌, has_prefix}
use corridor.Prelude.Dict.{lookup, insert}
use corridor.Config.{HealthCheckConfig}
use corridor.LoadBalancer.Target.{Url, Store}
use corridor.LoadBalancer.Next.{LoadBalancer, round_robin, weighted_random, least_connections, next}
use corridor.Proxy.{Balancers}
use corridor.HealthChecker.Ignored.{monitor_target_ignored}
use corridor.Proxy.Health.{first_with}
use corridor.HealthChecker.{
  TargetStatus, initial_status, record_result, start_target, monitor_target,
}
use corridor.HealthChecker.Hysteresis.{
  HasRun, times, record_results, record_results_flip, record_results_stable,
}
use corridor.HealthChecker.Sync.{results}
use corridor.HealthChecker.Probe.{Network, probe_path, rooted, perform_check}

abbrev pub url_string : Url → Text
url_string u = u.scheme ++ (text "://" ++ u.host)

abbrev pub two_targets : Store
two_targets = record {
  next = 2;
  cell = λ a. record {
    url = record {
      scheme = text "http";
      host = if eqb a 0 then text "a" else text "b";
      path = [];
      raw_query = [];
    };
    healthy = true;
    weight = pos 1;
    active_connections = pos 0;
  };
}

abbrev pub balancers : Balancers
balancers =
    insert (text "plain") (round_robin (text "plain") (0 ∷ 1 ∷ []) 0)
      (insert (text "heavy") (weighted_random (text "heavy") (0 ∷ 1 ∷ [])) [])

abbrev pub probes : HealthCheckConfig
probes = record {
  ready = text "/ready";
  live = [];
  interval = pos 30;
  timeout = pos 5;
  unhealthy_threshold = pos 2;
  healthy_threshold = pos 1;
}

abbrev started : TargetStatus
started = initial_status (text "plain") (text "http://b") probes

pub plain_known : lookup (text "plain") balancers ≡ some (round_robin (text "plain") (0 ∷ 1 ∷ []) 0)
unfolding lookup insert ◌==◌
plain_known = refl

pub second_found : first_with url_string (text "http://b") two_targets (0 ∷ 1 ∷ []) ≡ some 1
unfolding first_with ◌==◌
second_found = refl

record_results_flip_example : (record_results (times 2 false) started).is_healthy ≡ false
record_results_flip_example = record_results_flip false 2 started (omega arith) (omega arith)

two_failures :
    (record_results
      (true ∷ false ∷ false ∷ [])
      (initial_status (text "plain") (text "http://b") probes)).is_healthy
    ≡ false
unfolding record_results record_result
two_failures = refl

record_results_stable_example : HasRun (pos 2) false (true ∷ false ∷ false ∷ [])
record_results_stable_example =
    record_results_stable (text "plain") (text "http://b") probes (true ∷ false ∷ false ∷ [])
      two_failures

-- A network in which every request brings one status code.
abbrev pub answering : ℕ → Network
answering code = record {
  url_parse =
      λ u. some (record { scheme = text "http"; host = text "b"; path = []; raw_query = [] });
  resolve = λ base path. url_string base ++ path;
  can_request = λ u. true;
  get = λ u seconds. some code;
}

abbrev outage : List Network
outage = answering 200 ∷ answering 503 ∷ answering 503 ∷ []

outage_test : results (text "http://b") probes outage ≡ true ∷ false ∷ false ∷ []
unfolding perform_check probe_path rooted has_prefix ◌==◌
outage_test = refl

-- A service whose least-connections balancer has one target.
abbrev lone : LoadBalancer
lone = least_connections (text "lone") (1 ∷ [])

abbrev lone_balancers : Balancers
lone_balancers = insert (text "lone") lone []

abbrev down : List Network
down = answering 503 ∷ answering 503 ∷ []

abbrev last_draw : ℕ → ℕ
last_draw n = 0

lone_known : lookup (text "lone") lone_balancers ≡ some lone
unfolding lookup insert ◌==◌
lone_known = refl

down_fails : results (text "http://b") probes down ≡ times 2 false
unfolding perform_check probe_path rooted has_prefix ◌==◌
down_fails = refl

monitor_target_ignored_example :
    ((monitor_target url_string lone_balancers down (
        start_target url_string lone_balancers
          (text "lone")
          (text "http://b")
          probes
          two_targets)).0.is_healthy
      ≡ false)
    × ((next
          (monitor_target url_string lone_balancers down (
            start_target url_string lone_balancers
              (text "lone")
              (text "http://b")
              probes
              two_targets)).1
          last_draw
          lone).0
        ≡ ok 1)
monitor_target_ignored_example =
    monitor_target_ignored url_string lone_balancers lone (λ never. never) (text "lone")
      (text "http://b") probes down 2 two_targets last_draw 1 lone_known refl refl
      (λ n some_draw. some_draw) (omega arith) (omega arith) down_fails
