-- ===== src/Tests/Server.antt =====
-- A server with one certificate, and the limits that stand by default.
use corridor.Prelude.{◌*◌, ◌≡◌, refl, [], ◌∷◌, Option, none, some, true, ok, arith}
use corridor.Prelude.Int.{pos, second, duration}
use corridor.Prelude.Text.{Text, text, ◌==◌}
use corridor.Config.{Config, GlobalConfig}
use corridor.Config.Timeouts.{get_default_timeout}
use corridor.Config.Validate.{
  validate_and_set_defaults, default_global, check_tls, check_certificates, check_services,
  check_routes,
}
use corridor.Proxy.Transport.{new_transport, request_deadline}
use corridor.Server.{timeouts, shutdown_timeout, load_certificates, start_tls}
use corridor.Server.Limits.{AreBrief, IsLimited, timeouts-IsLimited}
use corridor.Server.Certificates.{Started, start_tls-Started}

abbrev pub global : GlobalConfig
global = record {
  port = pos 8443;
  log_level = text "info";
  enable_https = true;
  default_timeout_ms = pos 5000;
  proxy_headers = [];
  read_timeout_sec = some (pos 20);
  write_timeout_sec = some (pos 0);
  idle_timeout_sec = none;
  read_header_timeout_sec = none;
  fail_on_service_init_error = none;
  transport_dial_timeout_sec = some (pos 3);
  transport_keep_alive_sec = none;
  transport_max_idle_conns = some (pos 0);
  transport_max_idle_conns_per_host = none;
  transport_idle_conn_timeout_sec = none;
  transport_tls_handshake_timeout_sec = none;
  transport_expect_continue_timeout_sec = none;
  transport_response_header_timeout_sec = none;
}

abbrev pub cfg : Config
cfg = record {
  global = global;
  services = [];
  routes = [];
  plugins = record { authentication = []; rate_limiting = []; caching = []; logging = [] };
  tls = some (record {
    certificates =
        record { hostname = text "a"; cert_file = text "a.crt"; key_file = text "a.key" } ∷ [];
  });
}

abbrev pub load_key_pair : Text → Text → Option Text
load_key_pair cert_file key_file = some cert_file

cfg_valid : validate_and_set_defaults cfg ≡ ok cfg
unfolding validate_and_set_defaults default_global check_tls check_certificates check_services
    check_routes ◌==◌
cfg_valid = refl

start_tls_test : start_tls load_key_pair cfg ≡ ok (some (text "a.crt" ∷ []))
unfolding start_tls load_certificates
start_tls_test = refl

start_tls-Started_example : Started load_key_pair cfg (start_tls load_key_pair cfg)
start_tls-Started_example = start_tls-Started load_key_pair cfg cfg cfg_valid

-- A setting of zero is passed over.
timeouts_test : timeouts global ≡ record {
  read_timeout = pos (20 * second);
  write_timeout = pos (30 * second);
  idle_timeout = pos (60 * second);
  read_header_timeout = pos (15 * second);
}
unfolding timeouts duration
timeouts_test = refl

response_header_test : (new_transport global).response_header_timeout ≡ pos (5 * second)
unfolding new_transport get_default_timeout duration
response_header_test = refl

global-AreBrief : AreBrief global
global-AreBrief = record {
  read = omega arith;
  write = omega arith;
  idle = tt;
  read_header = tt;
  dial = omega arith;
  keep_alive = tt;
  idle_conn = tt;
  tls_handshake = tt;
  expect_continue = tt;
  response_header = tt;
  default = omega arith;
}

timeouts-IsLimited_example :
    IsLimited
      (timeouts global)
      (new_transport global)
      (shutdown_timeout global)
      (request_deadline global)
timeouts-IsLimited_example = timeouts-IsLimited global global-AreBrief
