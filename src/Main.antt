-- ===== src/Main.antt =====
-- app/main.go, from the configuration to the listening, and `LoadConfig` of app/config/config.go.
-- The reading of files and the YAML decoder are parameters, and so are those of the parts.
pub mod Causes
pub mod Exits
pub mod Command
use corridor.Prelude.{List, [], ◌∷◌, Option, none, some, Result, ok, err, ◌>>=◌}
use corridor.Prelude.Text.{Text}
use corridor.Config.{Config}
use corridor.Config.Validate.{ConfigError, validate_and_set_defaults}
use corridor.LoadBalancer.Target.{Url, Store}
use corridor.LoadBalancer.Create.{CreateError}
use corridor.Plugin.{Registry}
use corridor.Proxy.{Balancers, new_proxy}
use corridor.HealthChecker.Start.{Checking, start}
use corridor.Router.{Router, new_router}
use corridor.Server.{FatalError, start_tls}

-- Why the program ends before it listens.
pub data Exit : Type 0 where
  unreadable undecodable : Exit
  invalid : ConfigError → Exit
  no_proxy : CreateError → Exit
  plugin_panics : Exit
  no_server : FatalError → Exit

abbrev pub or_exit {ℓ} : {E : Type 0} {A : Type ℓ} → (E → Exit) → Result E A → Result Exit A
or_exit f (ok a) = ok a
or_exit f (err e) = err (f e)

abbrev pub or_missing : {A : Type 0} → Exit → Option A → Result Exit A
or_missing e none = err e
or_missing e (some a) = ok a

unfoldable pub load_config :
    (Text → Option Text) → (Text → Option Config) → Text → Result Exit Config
load_config read_file unmarshal config_path = do
  config_file ← or_missing unreadable (read_file config_path)
  cfg ← or_missing undecodable (unmarshal config_file)
  or_exit invalid (validate_and_set_defaults cfg)

-- What runs once the server listens.
pub record Running (H Cert : Type 0) : Type 0 where
  pub config : Config
  pub balancers : Balancers
  pub checking : Checking
  pub router : Router H
  pub certificates : Option (List Cert)

-- `proxy_of` is the proxy's `ServeHTTP` over its balancers.
module _ {H Cert : Type 0} (url_parse : Text → Option Url) (url_string : Url → Text)
    (registry : Registry H) (proxy_of : Balancers → H)
    (load_key_pair : Text → Text → Option Cert) where
  -- The parts that `main` makes, from a store of targets; the certificates are read last, when the
  -- server starts.
  unfoldable pub start_up : Config → Store → Result Exit (Running H Cert)
  start_up cfg h = do
    (lbs, h') ← or_exit no_proxy (new_proxy url_parse cfg h)
    rt ← or_missing plugin_panics (new_router registry cfg (proxy_of lbs))
    certs ← or_exit no_server (start_tls load_key_pair cfg)
    ok (record {
      config = cfg;
      balancers = lbs;
      checking =
          start url_string lbs cfg.services
            (record { statuses = []; monitored = []; targets = h' });
      router = rt;
      certificates = certs;
    })

  unfoldable pub run_main :
      (Text → Option Text) → (Text → Option Config) → Text → Store → Result Exit (Running H Cert)
  run_main read_file unmarshal config_path h =
      load_config read_file unmarshal config_path >>= λ cfg. start_up cfg h
