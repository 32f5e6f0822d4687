-- ===== src/Tests/Monitoring.antt =====
-- A service with two targets that are checked, and one that is not.
use corridor.Prelude.{◌≡◌, ◌↔◌, refl, [], ◌∷◌, List, some, none, In}
use corridor.Prelude.Int.{pos}
use corridor.Prelude.Text.{text, ◌==◌}
use corridor.Prelude.Dict.{lookup, insert}
use corridor.Config.{ServiceConfig}
use corridor.HealthChecker.{TargetStatus, initial_status, start_target}
use corridor.HealthChecker.Start.{start, start_targets, get_status, set_status}
use corridor.HealthChecker.Monitored.{IsConfigured, start_iff}
use corridor.Tests.Health.{url_string, balancers, two_targets, probes}

abbrev checked : ServiceConfig
checked = record {
  name = text "plain";
  upstream_urls = [];
  upstream_url = [];
  load_balancing = some (record {
    strategy = text "round-robin";
    targets =
        record { url = text "http://a"; weight = pos 1 }
        ∷ record { url = text "http://b"; weight = pos 1 }
        ∷ [];
    health_checks = some probes;
  });
}

abbrev unchecked : ServiceConfig
unchecked = record checked { name = text "heavy"; load_balancing = none }

abbrev pub services : List ServiceConfig
services = unchecked ∷ checked ∷ []

abbrev second : TargetStatus
second = initial_status (text "plain") (text "http://b") probes

monitored_test :
    (start url_string balancers services
      (record { statuses = []; monitored = []; targets = two_targets })).monitored
    ≡ initial_status (text "plain") (text "http://a") probes ∷ second ∷ []
unfolding start start_targets start_target
monitored_test = refl

status_test :
    get_status
      (text "plain")
      (text "http://b")
      (start url_string balancers services
        (record { statuses = []; monitored = []; targets = two_targets })).statuses
    ≡ some second
unfolding start start_targets start_target get_status set_status lookup insert ◌==◌
status_test = refl

start_iff_example :
    In second
      (start url_string balancers services
        (record { statuses = []; monitored = []; targets = two_targets })).monitored
    ↔ IsConfigured services second
start_iff_example = start_iff url_string balancers second services two_targets
