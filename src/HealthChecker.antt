-- ===== src/HealthChecker.antt =====
-- app/healthchecker/healthchecker.go: one target's monitoring. The ticker is the sequence of
-- checks; what the network is at each of them is a parameter.
-- The counters are unbounded here; in the program they are 64-bit and grow by one a check.
pub mod Probe
pub mod Hysteresis
pub mod Sync
pub mod Start
pub mod Monitored
pub mod Ignored
pub mod Loop
use corridor.Prelude.{
  ℕ, ◌+◌, List, [], ◌∷◌, Option, none, some, Bool, true, false, not, ◌&&◌, if◌then◌else◌,
}
use corridor.Prelude.Int.{pos, leb_ℤ}
use corridor.Prelude.Text.{Text}
use corridor.Config.{HealthCheckConfig}
use corridor.LoadBalancer.Target.{Url, Store}
use Probe.{Network, perform_check}
use corridor.Proxy.{Balancers, update_target_health}

pub record TargetStatus : Type 0 where
  pub target_url : Text
  pub service_name : Text
  pub config : HealthCheckConfig
  pub consecutive_failures : ℕ
  pub consecutive_successes : ℕ
  pub is_healthy : Bool

-- The status that `Start` makes.
abbrev pub initial_status : Text → Text → HealthCheckConfig → TargetStatus
initial_status service url hc = record {
  target_url = url;
  service_name = service;
  config = hc;
  consecutive_failures = 0;
  consecutive_successes = 0;
  is_healthy = true;
}

-- The counters and the health after one check.
unfoldable pub record_result : Bool → TargetStatus → TargetStatus
record_result true s = record s {
  consecutive_successes = s.consecutive_successes + 1;
  consecutive_failures = 0;
  is_healthy =
      if not s.is_healthy && leb_ℤ s.config.healthy_threshold (pos (s.consecutive_successes + 1))
      then true
      else s.is_healthy;
}
record_result false s = record s {
  consecutive_failures = s.consecutive_failures + 1;
  consecutive_successes = 0;
  is_healthy =
      if s.is_healthy && leb_ℤ s.config.unhealthy_threshold (pos (s.consecutive_failures + 1))
      then false
      else s.is_healthy;
}

abbrev pub same_health : Bool → Bool → Bool
same_health true b = b
same_health false b = not b

module _ (url_string : Url → Text) (lbs : Balancers) where
  -- `processCheckResult`: the proxy hears of a change.
  unfoldable pub process_check_result : Bool → TargetStatus × Store → TargetStatus × Store
  process_check_result success (s, h) =
      let s' = record_result success s in
      (
        s',
        if same_health s'.is_healthy s.is_healthy
            then h
            else update_target_health url_string lbs s.service_name s.target_url s'.is_healthy h,
      )

  abbrev pub reported : Option Bool → TargetStatus × Store → TargetStatus × Store
  reported none st = st
  reported (some success) st = process_check_result success st

  -- `performCheck` with the result that it hands on.
  unfoldable pub check_target : Network → TargetStatus × Store → TargetStatus × Store
  check_target net (s, h) = reported (perform_check net s.target_url s.config) (s, h)

  -- The loop of `monitorTarget`: a target's checks, in turn.
  unfoldable pub monitor_target : List Network → TargetStatus × Store → TargetStatus × Store
  monitor_target [] st = st
  monitor_target (net ∷ nets) st = monitor_target nets (check_target net st)

  -- What `Start` does for one target.
  unfoldable pub start_target : Text → Text → HealthCheckConfig → Store → TargetStatus × Store
  start_target service url hc h =
      (initial_status service url hc, update_target_health url_string lbs service url true h)
