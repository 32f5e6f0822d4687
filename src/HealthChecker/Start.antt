-- ===== src/HealthChecker/Start.antt =====
-- app/healthchecker/healthchecker.go: the store of statuses, and `Start` over all services.
use corridor.Prelude.{List, [], ◌∷◌, ◌++◌, Option, none, some}
use corridor.Prelude.Text.{Text, text}
use corridor.Prelude.Dict.{Dict, lookup, insert}
use corridor.Config.{ServiceConfig, LoadBalancingConfig, HealthCheckConfig, TargetConfig}
use corridor.LoadBalancer.Target.{Url, Store}
use corridor.Proxy.{Balancers}
use corridor.HealthChecker.{TargetStatus, start_target}

abbrev pub TargetStatusStore : Type 0
TargetStatusStore = Dict TargetStatus

abbrev pub status_key : Text → Text → Text
status_key service_name target_url = service_name ++ (text "|" ++ target_url)

unfoldable pub get_status : Text → Text → TargetStatusStore → Option TargetStatus
get_status service_name target_url statuses = lookup (status_key service_name target_url) statuses

unfoldable pub set_status : Text → Text → TargetStatus → TargetStatusStore → TargetStatusStore
set_status service_name target_url status statuses =
    insert (status_key service_name target_url) status statuses

-- The statuses by their keys, those that a goroutine monitors in the order of their start, and the
-- targets of the proxy.
pub record Checking : Type 0 where
  pub statuses : TargetStatusStore
  pub monitored : List TargetStatus
  pub targets : Store

module _ (url_string : Url → Text) (lbs : Balancers) where
  abbrev pub add_status : Text → Text → TargetStatus × Store → Checking → Checking
  add_status service_name target_url (status, h) ch = record {
    statuses = set_status service_name target_url status ch.statuses;
    monitored = ch.monitored ++ (status ∷ []);
    targets = h;
  }

  -- The loop over a service's targets.
  unfoldable pub start_targets : Text → HealthCheckConfig → List TargetConfig → Checking → Checking
  start_targets service_name hc [] ch = ch
  start_targets service_name hc (t ∷ ts) ch = start_targets service_name hc ts (
      add_status service_name t.url (start_target url_string lbs service_name t.url hc ch.targets)
        ch)

  abbrev pub start_checked :
      Text → List TargetConfig → Option HealthCheckConfig → Checking → Checking
  start_checked service_name ts none ch = ch
  start_checked service_name ts (some hc) ch = start_targets service_name hc ts ch

  abbrev pub start_service : Text → Option LoadBalancingConfig → Checking → Checking
  start_service service_name none ch = ch
  start_service service_name (some lb) ch =
      start_checked service_name lb.targets lb.health_checks ch

  -- The loop over the services.
  unfoldable pub start : List ServiceConfig → Checking → Checking
  start [] ch = ch
  start (s ∷ ss) ch = start ss (start_service s.name s.load_balancing ch)
