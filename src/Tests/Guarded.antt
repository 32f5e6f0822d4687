-- ===== src/Tests/Guarded.antt =====
-- A route whose plugins tag a request with an id and then ask for an API key.
use corridor.Prelude.{
  ◌≡◌, refl, sym, ◌∙◌, ap, subst, List, [], ◌∷◌, Option, none, some, ok, inl, inr, ok-injective,
  if◌then◌else◌,
}
use corridor.Prelude.Text.{
  Text, text, ◌==◌, has_suffix, has_prefix, trim_suffix, trim_prefix, contains, before, equal_fold,
  to_lower,
}
use corridor.Prelude.Dict.{Dict, lookup, insert}
use corridor.Config.{Config, RouteConfig, PluginInstanceConfig, PluginsConfig}
use corridor.Config.Yaml.{Value, field_at}
use corridor.Config.Validate.{
  validate_and_set_defaults, default_global, check_tls, check_services, check_routes, check_service,
  check_route, seen, populate, check_copy,
}
use corridor.Config.Validate.Loops.{IsWellFormed, validate-IsWellFormed}
use corridor.Plugin.{Plugin, Registry, get_plugin_instance, chain_plugins, chain_loop}
use corridor.Router.Matching.{match_route, match_path, match_host, match_method, hostname_of}
use corridor.Router.{
  MatchedRouteInfo, serves, build_service_map, find_route, instances, build_plugin_chain,
  build_route_handlers, panics_in, Router, router_of, new_router, serve_http,
}
use corridor.Authentication.{Sources, InitError, entries, entry_of, load_docs}
use corridor.Authentication.Settings.{
  init, apply_auth_config, apply_texts, apply_mongo, apply_keys, apply_public_key, check_jwt,
  use_mongo,
}
use corridor.Authentication.Handling.{handle, handle_api_key}
use corridor.Gateway.{Call, Refusal, refreshes, authenticate, authentication_constructor}
use corridor.Gateway.Guarded.{Admitted, PassesOn, AllPassOn, serve_http-Admitted}
use corridor.Tests.Authentication.{crypto, sources, key_settings, key_plugin, header}
use corridor.Tests.Gateway.{cfg, valid, admin, rest, guard, admin_request, valid_service}

abbrev tag : PluginInstanceConfig
tag = record { name = text "request-id"; config = [] }

abbrev guarded : RouteConfig
guarded = record admin { plugins = tag ∷ guard ∷ [] }

abbrev pub settings : PluginsConfig
settings = record { authentication = key_settings; rate_limiting = []; caching = []; logging = [] }

abbrev gateway : Config
gateway = record cfg { routes = guarded ∷ rest ∷ []; plugins = settings }

abbrev gateway_valid : Config
gateway_valid = record valid { routes = guarded ∷ rest ∷ []; plugins = settings }

gateway-IsWellFormed : IsWellFormed gateway_valid
unfolding validate_and_set_defaults default_global check_tls check_services check_routes
    check_service check_route seen populate check_copy ◌==◌
gateway-IsWellFormed = validate-IsWellFormed gateway gateway_valid refl

-- Answers are what the proxy writes, or nothing.
abbrev pub Handler : Type 0
Handler = Call (Unit {0}) → Option Text

abbrev Proxied : Option Text → Type 0
Proxied none = ⊥
Proxied (some answer) = Unit

abbrev pub deny : Refusal → Option Text
deny o = none

abbrev pub ticks : Dict Value → Call (Unit {0}) → List Sources
ticks config call = sources ∷ []

abbrev pub message : InitError → Text
message e = text "no plugin"

abbrev tagged : Handler → Handler
tagged origin call = origin (record call {
  header = λ name. if name == text "X-Request-Id" then text "7" else call.header name;
})

abbrev tagging : Plugin Handler
tagging = record { name = text "request-id"; handle = tagged }

abbrev plugins : Registry Handler
plugins =
    (text "request-id", (λ c g. ok tagging))
    ∷ (text "authentication", authentication_constructor crypto deny sources ticks message)
    ∷ []

abbrev upstream : Handler
upstream call = some (text "up")

abbrev chain : Handler
chain = tagged (authenticate crypto deny (ticks []) key_plugin upstream)

abbrev info : MatchedRouteInfo
info = record { route_config = guarded; service_config = valid_service }

chain_built : build_plugin_chain plugins settings guarded upstream ≡ ok chain
unfolding build_plugin_chain instances get_plugin_instance authentication_constructor chain_plugins
    chain_loop init apply_auth_config apply_texts apply_mongo apply_keys apply_public_key entries
    entry_of load_docs insert lookup field_at to_lower check_jwt use_mongo ◌==◌
chain_built = refl

abbrev router : Router Handler
router = router_of plugins gateway_valid upstream

router_made : new_router plugins gateway_valid upstream ≡ some router
unfolding new_router panics_in build_plugin_chain instances get_plugin_instance
    authentication_constructor chain_plugins chain_loop init apply_auth_config apply_texts
    apply_mongo apply_keys apply_public_key entries entry_of load_docs field_at to_lower check_jwt
    use_mongo lookup insert ◌==◌
router_made = refl

route_served : serve_http router admin_request ≡ serves info chain
unfolding serve_http router_of find_route build_service_map build_route_handlers lookup insert ◌==◌
    match_route match_host match_method match_path hostname_of has_suffix has_prefix trim_suffix
    trim_prefix contains before equal_fold build_plugin_chain instances get_plugin_instance
    authentication_constructor chain_plugins chain_loop init apply_auth_config apply_texts
    apply_mongo apply_keys apply_public_key entries entry_of load_docs field_at to_lower check_jwt
    use_mongo
route_served = refl

tagging-PassesOn : PassesOn Proxied (text "X-API-Key") tagging
unfolding ◌==◌
tagging-PassesOn = record {
  from_next = λ origin call proxied. (
    record call {
      header = λ name. if name == text "X-Request-Id" then text "7" else call.header name;
    },
    refl,
    proxied,
  );
}

denies : (o : Refusal) → Proxied (deny o) → ⊥
denies o m = m

found_authentication :
    lookup (text "authentication") plugins
    ≡ some (authentication_constructor crypto deny sources ticks message)
unfolding lookup ◌==◌
found_authentication = refl

tag_made : get_plugin_instance plugins settings tag ≡ ok tagging
unfolding get_plugin_instance lookup ◌==◌
tag_made = refl

all_pass_on :
    AllPassOn Proxied crypto deny denies sources ticks message plugins settings found_authentication
      (text "X-API-Key")
      (tag ∷ [])
all_pass_on conf q (inl e) got =
    let same =
      ok-injective (sym tag_made ∙ ap (get_plugin_instance plugins settings) (sym e) ∙ got) in
    subst (PassesOn Proxied (text "X-API-Key")) same tagging-PassesOn
all_pass_on conf q (inr m) got = elim m [ ]

abbrev call : Call (Unit {0})
call = record { header = header; user = none; rest = tt }

call_answered : Proxied (chain call)
unfolding authenticate refreshes handle handle_api_key lookup ◌==◌
call_answered = tt

serve_http-Admitted_example : Admitted crypto sources ticks [] key_settings (text "X-API-Key") call
serve_http-Admitted_example =
    serve_http-Admitted Proxied crypto deny sources ticks message plugins gateway_valid upstream
      chain chain router admin_request info (tag ∷ []) [] guard (text "X-API-Key") call denies
      found_authentication gateway-IsWellFormed router_made route_served chain_built refl refl
      all_pass_on call_answered
