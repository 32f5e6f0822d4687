-- ===== src/Tests/Gateway.antt =====
-- A gateway with one service behind two targets, a protected route and a catch-all route.
use corridor.Prelude.{
  ℕ, ◌≡◌, ◌↔◌, refl, [], ◌∷◌, Option, none, some, true, false, ok, err, if◌then◌else◌, ◌+◌,
}
use corridor.Prelude.Int.{pos}
use corridor.Prelude.Text.{
  Text, text, ◌==◌, has_suffix, has_prefix, trim_suffix, trim_prefix, contains, before, equal_fold,
  to_lower,
}
use corridor.Prelude.Dict.{Dict, lookup, insert}
use corridor.Config.{Config, ServiceConfig, RouteConfig, PluginInstanceConfig}
use corridor.Config.Validate.{
  validate_and_set_defaults, default_global, check_tls, check_services, check_routes, check_service,
  check_route, seen, populate, check_copy,
}
use corridor.Config.Validate.Loops.{IsWellFormed, validate-IsWellFormed}
use corridor.LoadBalancer.Target.{Url, Store, allocate}
use corridor.LoadBalancer.Next.{LoadBalancer, round_robin}
use corridor.LoadBalancer.Create.{new_load_balancer, select_balancer, parse_targets, targets_of}
use corridor.LoadBalancer.Create.Correct.{IsNew, new_load_balancer-IsNew}
use corridor.Plugin.{Plugin, Registry, fails, register_plugin, get_plugin_instance}
use corridor.Router.Matching.{
  Request, match_route, match_path, match_host, match_method, hostname_of,
}
use corridor.Router.{
  MatchedRouteInfo, serves, build_service_map, find_route, instances, build_plugin_chain,
  build_route_handlers, panics_in, Router, router_of, new_router, serve_http,
}
use corridor.Router.Paths.{Covers, match_path_iff}
use corridor.Router.Selection.{FirstMatch}
use corridor.Router.Handlers.{own_chain}
use corridor.Router.Serve.{chain_or_proxy, serve_http_iff}

abbrev service : ServiceConfig
service = record {
  name = text "api";
  upstream_urls = text "http://a" ∷ text "http://b" ∷ [];
  upstream_url = [];
  load_balancing = none;
}

abbrev pub guard : PluginInstanceConfig
guard = record { name = text "authentication"; config = [] }

abbrev pub admin : RouteConfig
admin = record {
  id = text "admin";
  paths = text "/admin/*" ∷ [];
  methods = text "GET" ∷ [];
  host = text "*.example.org";
  service = text "api";
  plugins = guard ∷ [];
}

abbrev pub rest : RouteConfig
rest = record {
  id = text "rest";
  paths = text "/*" ∷ [];
  methods = [];
  host = [];
  service = text "api";
  plugins = [];
}

abbrev pub cfg : Config
cfg = record {
  global = record {
    port = pos 0;
    log_level = [];
    enable_https = false;
    default_timeout_ms = pos 0;
    proxy_headers = [];
    read_timeout_sec = none;
    write_timeout_sec = none;
    idle_timeout_sec = none;
    read_header_timeout_sec = none;
    fail_on_service_init_error = none;
    transport_dial_timeout_sec = none;
    transport_keep_alive_sec = none;
    transport_max_idle_conns = none;
    transport_max_idle_conns_per_host = none;
    transport_idle_conn_timeout_sec = none;
    transport_tls_handshake_timeout_sec = none;
    transport_expect_continue_timeout_sec = none;
    transport_response_header_timeout_sec = none;
  };
  services = service ∷ [];
  routes = admin ∷ rest ∷ [];
  plugins = record { authentication = []; rate_limiting = []; caching = []; logging = [] };
  tls = none;
}

-- The configuration with its defaults.
abbrev pub valid_service : ServiceConfig
valid_service = record service {
  upstream_urls = [];
  load_balancing = some (record {
    strategy = text "round-robin";
    targets =
        record { url = text "http://a"; weight = pos 0 }
        ∷ record { url = text "http://b"; weight = pos 0 }
        ∷ [];
    health_checks = none;
  });
}

abbrev pub valid : Config
valid = record cfg {
  global = record cfg.global {
    port = pos 8080;
    log_level = text "info";
    default_timeout_ms = pos 5000;
  };
  services = valid_service ∷ [];
}

cfg-valid : validate_and_set_defaults cfg ≡ ok valid
unfolding validate_and_set_defaults default_global check_tls check_services check_routes
    check_service check_route seen populate check_copy ◌==◌
cfg-valid = refl

validate-IsWellFormed_example : IsWellFormed valid
validate-IsWellFormed_example = validate-IsWellFormed cfg valid cfg-valid

valid-IsWellFormed : IsWellFormed valid
valid-IsWellFormed = validate-IsWellFormed cfg valid cfg-valid

abbrev pub admin_request : Request
admin_request = record {
  method = text "get";
  host = text "www.example.org:8080";
  path = text "/admin/users";
}

admin_matches : match_route admin admin_request ≡ true
unfolding match_route match_host match_method match_path hostname_of has_suffix has_prefix
    trim_suffix trim_prefix contains before equal_fold ◌==◌
admin_matches = refl

match_path_iff_example :
    (match_path (text "/admin/users") (text "/admin/*") ≡ true)
    ↔ Covers (text "/admin/*") (text "/admin/users")
match_path_iff_example = match_path_iff (text "/admin/users") (text "/admin/*")

abbrev services : Dict ServiceConfig
services = build_service_map valid.services []

abbrev to_admin : MatchedRouteInfo
to_admin = record { route_config = admin; service_config = valid_service }

finds_admin : find_route valid.routes services admin_request ≡ some to_admin
unfolding find_route build_service_map lookup insert ◌==◌ match_route match_host match_method
    match_path hostname_of has_suffix has_prefix trim_suffix trim_prefix contains before equal_fold
finds_admin = refl

-- Handlers are numbers: the proxy is 1, and the authentication doubles what it wraps.
abbrev registry : Registry ℕ
registry =
    register_plugin (text "authentication")
      (λ c g. ok (record { name = text "authentication"; handle = λ n. n + n })) []

abbrev broken : Registry ℕ
broken = register_plugin (text "authentication") (λ c g. err (fails (text "no keys"))) []

abbrev router : Router ℕ
router = router_of registry valid 1

router_made : new_router registry valid 1 ≡ some router
unfolding new_router panics_in build_plugin_chain instances get_plugin_instance register_plugin
    insert lookup ◌==◌
router_made = refl

serve_http_iff_example : (serve_http router admin_request ≡ serves to_admin 2) ↔ (
    FirstMatch (build_service_map valid.services []) admin_request valid.routes to_admin
    × (2 ≡ chain_or_proxy 1 (own_chain (build_plugin_chain registry valid.plugins admin 1))))
serve_http_iff_example =
    serve_http_iff registry valid 1 router admin_request to_admin 2 valid-IsWellFormed router_made

-- A protected route whose plugin could not be made.
unprotected_test : serve_http (router_of broken valid 1) admin_request ≡ serves to_admin 1
unfolding serve_http router_of find_route build_service_map build_route_handlers lookup insert ◌==◌
    match_route match_host match_method match_path hostname_of has_suffix has_prefix trim_suffix
    trim_prefix contains before equal_fold build_plugin_chain instances get_plugin_instance
    register_plugin
unprotected_test = refl

abbrev doubling : Plugin ℕ
doubling = record { name = text "double"; handle = λ n. n + n }

abbrev tripling : Plugin ℕ
tripling = record { name = text "triple"; handle = λ n. n + (n + n) + 1 }

abbrev no_objects : Store
no_objects = record {
  next = 0;
  cell = λ a. record {
    url = record { scheme = []; host = []; path = []; raw_query = [] };
    healthy = false;
    weight = pos 0;
    active_connections = pos 0;
  };
}

-- A parser of the authority alone.
abbrev url_parse : Text → Option Url
url_parse t =
    if has_prefix t (text "http://")
    then some (record {
      scheme = text "http";
      host = trim_prefix t (text "http://");
      path = [];
      raw_query = [];
    })
    else none

abbrev balancer : LoadBalancer × Store
balancer = (
  round_robin (text "api") (0 ∷ 1 ∷ []) 0,
  (parse_targets url_parse (targets_of valid_service.load_balancing) no_objects).1,
)

balancer_made : new_load_balancer url_parse valid_service no_objects ≡ ok balancer
unfolding new_load_balancer select_balancer parse_targets allocate has_prefix trim_prefix to_lower
    ◌==◌
balancer_made = refl

new_load_balancer-IsNew_example : IsNew (text "api") no_objects balancer
new_load_balancer-IsNew_example =
    new_load_balancer-IsNew url_parse valid_service no_objects balancer balancer_made
