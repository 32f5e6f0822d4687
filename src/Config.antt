-- ===== src/Config.antt =====
-- app/config/config.go: the configuration's types. A pointer that may be nil is an `Option`, and a
-- nil slice is the empty list. The checks of `validateAndSetDefaults` are in Config/Validate.
pub mod Yaml
pub mod Validate
pub mod Timeouts
use corridor.Prelude.{ℕ, List, Bool, Option}
use corridor.Prelude.Int.{ℤ}
use corridor.Prelude.Text.{Text}
use corridor.Prelude.Dict.{Dict}
use Yaml.{Value}

pub record GlobalConfig : Type 0 where
  pub port : ℤ
  pub log_level : Text
  pub enable_https : Bool
  pub default_timeout_ms : ℤ
  pub proxy_headers : List Text
  pub read_timeout_sec : Option ℤ
  pub write_timeout_sec : Option ℤ
  pub idle_timeout_sec : Option ℤ
  pub read_header_timeout_sec : Option ℤ
  pub fail_on_service_init_error : Option Bool
  pub transport_dial_timeout_sec : Option ℤ
  pub transport_keep_alive_sec : Option ℤ
  pub transport_max_idle_conns : Option ℤ
  pub transport_max_idle_conns_per_host : Option ℤ
  pub transport_idle_conn_timeout_sec : Option ℤ
  pub transport_tls_handshake_timeout_sec : Option ℤ
  pub transport_expect_continue_timeout_sec : Option ℤ
  pub transport_response_header_timeout_sec : Option ℤ

pub record TargetConfig : Type 0 where
  pub url : Text
  pub weight : ℤ

pub record HealthCheckConfig : Type 0 where
  pub ready : Text
  pub live : Text
  pub interval : ℤ
  pub timeout : ℤ
  pub unhealthy_threshold : ℤ
  pub healthy_threshold : ℤ

pub record LoadBalancingConfig : Type 0 where
  pub strategy : Text
  pub targets : List TargetConfig
  pub health_checks : Option HealthCheckConfig

pub record ServiceConfig : Type 0 where
  pub name : Text
  pub upstream_urls : List Text
  pub upstream_url : Text
  pub load_balancing : Option LoadBalancingConfig

pub record PluginInstanceConfig : Type 0 where
  pub name : Text
  pub config : Dict Value

pub record RouteConfig : Type 0 where
  pub id : Text
  pub paths : List Text
  pub methods : List Text
  pub host : Text
  pub service : Text
  pub plugins : List PluginInstanceConfig

pub record PluginsConfig : Type 0 where
  pub authentication : Dict Value
  pub rate_limiting : Dict Value
  pub caching : Dict Value
  pub logging : Dict Value

pub record CertificateConfig : Type 0 where
  pub hostname : Text
  pub cert_file : Text
  pub key_file : Text

pub record TlsConfig : Type 0 where
  pub certificates : List CertificateConfig

pub record Config : Type 0 where
  pub global : GlobalConfig
  pub services : List ServiceConfig
  pub routes : List RouteConfig
  pub plugins : PluginsConfig
  pub tls : Option TlsConfig
