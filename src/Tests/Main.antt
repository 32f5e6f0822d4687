-- ===== src/Tests/Main.antt =====
-- A start of a gateway with HTTPS and no services, from a file of one word.
use corridor.Prelude.{ℕ, ◌≡◌, refl, [], true, ◌∷◌, Option, none, some, ok, if◌then◌else◌}
use corridor.Prelude.Int.{pos}
use corridor.Prelude.Text.{Text, text, ◌==◌}
use corridor.Config.{Config}
use corridor.Config.Validate.{
  validate_and_set_defaults, default_global, check_tls, check_certificates, check_services,
  check_routes,
}
use corridor.LoadBalancer.Target.{Url, Store}
use corridor.Plugin.{Registry}
use corridor.Proxy.{Balancers, build_balancers, new_proxy}
use corridor.HealthChecker.Start.{start}
use corridor.Router.{build_service_map, build_route_handlers, panics_in, router_of, new_router}
use corridor.Server.{load_certificates, start_tls}
use corridor.Main.{load_config, Running, start_up, run_main}
use corridor.Main.Exits.{Ended, run_main-Ended}
use corridor.Tests.Server.{cfg, load_key_pair}

abbrev url_parse : Text → Option Url
url_parse t = none

abbrev url_string : Url → Text
url_string u = u.host

abbrev no_targets : Store
no_targets = record {
  next = 0;
  cell = λ a. record {
    url = record { scheme = []; host = []; path = []; raw_query = [] };
    healthy = true;
    weight = pos 1;
    active_connections = pos 0;
  };
}

abbrev registry : Registry ℕ
registry = []

abbrev proxy_of : Balancers → ℕ
proxy_of lbs = 1

abbrev read_file : Text → Option Text
read_file path = if path == text "config.yaml" then some (text "https") else none

abbrev unmarshal : Text → Option Config
unmarshal t = some cfg

abbrev running : Running ℕ Text
running = record {
  config = cfg;
  balancers = [];
  checking = record { statuses = []; monitored = []; targets = no_targets };
  router = record { routes = []; service_map = []; proxy_handler = 1; route_handlers = [] };
  certificates = some (text "a.crt" ∷ []);
}

run_main_test :
    run_main url_parse url_string registry proxy_of load_key_pair read_file unmarshal
      (text "config.yaml")
      no_targets
    ≡ ok running
unfolding run_main load_config start_up validate_and_set_defaults default_global check_tls
    check_certificates check_services check_routes new_proxy build_balancers start_tls
    load_certificates start new_router panics_in router_of build_service_map build_route_handlers
    ◌==◌
run_main_test = refl

run_main-Ended_example :
    Ended url_parse url_string registry proxy_of load_key_pair read_file unmarshal
      (text "config.yaml")
      (run_main url_parse url_string registry proxy_of load_key_pair read_file unmarshal
        (text "config.yaml")
        no_targets)
run_main-Ended_example =
    run_main-Ended url_parse url_string registry proxy_of load_key_pair read_file unmarshal
      (text "config.yaml") no_targets
