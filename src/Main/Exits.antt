-- ===== src/Main/Exits.antt =====
-- How the start ends.
use corridor.Prelude.{
  ◌≡◌, refl, sym, ◌∙◌, List, [], Option, none, some, true, Result, ok, err, ◌>>=◌, inl, inr,
  Bool-cases,
}
use corridor.Prelude.Text.{Text}
use corridor.Config.{Config}
use corridor.Config.Validate.{ConfigError, validate_and_set_defaults}
use corridor.Config.Validate.Loops.{IsWellFormed, validate-IsWellFormed}
use corridor.LoadBalancer.Target.{Url, Store}
use corridor.LoadBalancer.Create.{CreateError}
use corridor.Plugin.{Registry}
use corridor.Proxy.{Balancers, fails_strictly, new_proxy}
use corridor.HealthChecker.Start.{start}
use corridor.Router.{Router, new_router}
use corridor.Server.{FatalError, start_tls}
use corridor.Server.Certificates.{Started, start_tls-Started, configured, Unreadable}
use corridor.Main.Causes.{
  Unbalanced, build_balancers-ok, build_balancers-Unbalanced, Panicking, new_router-Panicking,
}
use corridor.Main.{
  Exit, unreadable, undecodable, invalid, no_proxy, plugin_panics, no_server, or_exit, or_missing,
  load_config, Running, start_up, run_main,
}

-- A running gateway: its configuration passed the checks, the router is made of the configuration
-- and the balancers, and the certificates are those of the configuration.
pub record IsSound {H Cert : Type 0} (registry : Registry H) (proxy_of : Balancers → H)
    (load_key_pair : Text → Text → Option Cert) (g : Running H Cert) : Type 0 where
  pub well_formed : IsWellFormed g.config
  pub router : new_router registry g.config (proxy_of g.balancers) ≡ some g.router
  pub certificates : Started load_key_pair g.config (ok g.certificates)

-- A configuration that is what the checks make of a file.
pub record Accepted (read_file : Text → Option Text) (unmarshal : Text → Option Config)
    (path : Text) (cfg : Config) : Type 0 where
  pub content : Text
  pub written : Config
  pub read : read_file path ≡ some content
  pub decoded : unmarshal content ≡ some written
  pub valid : validate_and_set_defaults written ≡ ok cfg

module _ {H Cert : Type 0} (url_parse : Text → Option Url) (url_string : Url → Text)
    (registry : Registry H) (proxy_of : Balancers → H) (load_key_pair : Text → Text → Option Cert)
    (read_file : Text → Option Text) (unmarshal : Text → Option Config) where
  -- Why a start ends as it does.
  abbrev pub Ended : Text → Result Exit (Running H Cert) → Type 0
  Ended path (ok g) =
      Accepted read_file unmarshal path g.config × IsSound registry proxy_of load_key_pair g
  Ended path (err unreadable) = read_file path ≡ none
  Ended path (err undecodable) = (t : Text) × (read_file path ≡ some t) × (unmarshal t ≡ none)
  Ended path (err (invalid e)) =
      (t : Text) × (cfg : Config) × (read_file path ≡ some t)
      × (unmarshal t ≡ some cfg)
      × (validate_and_set_defaults cfg ≡ err e)
  Ended path (err (no_proxy e)) =
      (cfg : Config) × Accepted read_file unmarshal path cfg
      × (fails_strictly cfg.global.fail_on_service_init_error ≡ true)
      × (Unbalanced url_parse cfg.services e)
  Ended path (err plugin_panics) =
      (cfg : Config) × Accepted read_file unmarshal path cfg
      × (Panicking registry cfg.plugins cfg.routes)
  Ended path (err (no_server e)) =
      (cfg : Config) × Accepted read_file unmarshal path cfg
      × (cfg.global.enable_https ≡ true)
      × Unreadable load_key_pair (configured load_key_pair cfg.tls) e

  new_proxy_fails :
      (cfg : Config) (h : Store) (e : CreateError)
      → new_proxy url_parse cfg h ≡ err e
      → fails_strictly cfg.global.fail_on_service_init_error ≡ true
  unfolding new_proxy
  new_proxy_fails cfg h e failed =
      elim (Bool-cases (fails_strictly cfg.global.fail_on_service_init_error)) [
        | inl strict ↦ strict
        | inr lenient ↦
            let (out, made) = build_balancers-ok url_parse cfg.services [] h in
            let f = sym made ∙ rw lenient at failed in absurd (cc)
      ]

  new_proxy-Unbalanced :
      (cfg : Config) (h : Store) (e : CreateError)
      → new_proxy url_parse cfg h ≡ err e
      → Unbalanced url_parse cfg.services e
  unfolding new_proxy
  new_proxy-Unbalanced cfg h e failed =
      build_balancers-Unbalanced url_parse (fails_strictly cfg.global.fail_on_service_init_error)
        cfg.services [] h e failed

  -- The server's part, over the proxy and the router.
  served-Ended :
      (path : Text) (cfg : Config) (p : Balancers × Store) (rt : Router H)
      (r : Result FatalError (Option (List Cert)))
      → Accepted read_file unmarshal path cfg
      → new_router registry cfg (proxy_of p.0) ≡ some rt
      → Started load_key_pair cfg r
      → Ended path (
          or_exit no_server r >>= λ certs. ok (record {
            config = cfg;
            balancers = p.0;
            checking =
                start url_string p.0 cfg.services
                  (record { statuses = []; monitored = []; targets = p.1 });
            router = rt;
            certificates = certs;
          }))
  served-Ended path cfg p rt (ok certs) a made s = (
    a,
    record {
      well_formed = validate-IsWellFormed a.written cfg a.valid;
      router = made;
      certificates = s;
    },
  )
  served-Ended path cfg p rt (err e) a made s = (cfg, a, s.0, s.1)

  routed-Ended :
      (path : Text) (cfg : Config) (p : Balancers × Store) (o : Option (Router H))
      → Accepted read_file unmarshal path cfg
      → new_router registry cfg (proxy_of p.0) ≡ o
      → Ended path (
          or_missing plugin_panics o >>= λ rt.
          or_exit no_server (start_tls load_key_pair cfg) >>= λ certs. ok (record {
            config = cfg;
            balancers = p.0;
            checking =
                start url_string p.0 cfg.services
                  (record { statuses = []; monitored = []; targets = p.1 });
            router = rt;
            certificates = certs;
          }))
  routed-Ended path cfg p none a made =
      (cfg, a, new_router-Panicking registry cfg.plugins cfg (proxy_of p.0) refl made)
  routed-Ended path cfg p (some rt) a made =
      served-Ended path cfg p rt (start_tls load_key_pair cfg) a made
        (start_tls-Started load_key_pair a.written cfg a.valid)

  start_up-Ended :
      (path : Text) (cfg : Config) (h : Store) (r : Result CreateError (Balancers × Store))
      → Accepted read_file unmarshal path cfg
      → new_proxy url_parse cfg h ≡ r
      → Ended path (start_up url_parse url_string registry proxy_of load_key_pair cfg h)
  unfolding start_up
  start_up-Ended path cfg h (err e) a made =
      rw made (cfg, a, new_proxy_fails cfg h e made, new_proxy-Unbalanced cfg h e made)
  start_up-Ended path cfg h (ok p) a made =
      rw made (routed-Ended path cfg p (new_router registry cfg (proxy_of p.0)) a refl)

  validated-Ended :
      (path t : Text) (cfg : Config) (h : Store) (r : Result ConfigError Config)
      → read_file path ≡ some t
      → unmarshal t ≡ some cfg
      → validate_and_set_defaults cfg ≡ r
      → Ended path (
          or_exit invalid r >>= λ cfg'.
          start_up url_parse url_string registry proxy_of load_key_pair cfg' h)
  validated-Ended path t cfg h (ok cfg') read decoded valid =
      start_up-Ended path cfg' h (new_proxy url_parse cfg' h)
        (record { content = t; written = cfg; read = read; decoded = decoded; valid = valid }) refl
  validated-Ended path t cfg h (err e) read decoded valid = (t, cfg, read, decoded, valid)

  decoded-Ended :
      (path t : Text) (h : Store) (o : Option Config)
      → read_file path ≡ some t
      → unmarshal t ≡ o
      → Ended path (
          (or_missing undecodable o >>= λ cfg. or_exit invalid (validate_and_set_defaults cfg))
          >>= λ cfg'. start_up url_parse url_string registry proxy_of load_key_pair cfg' h)
  decoded-Ended path t h none read decoded = (t, read, decoded)
  decoded-Ended path t h (some cfg) read decoded = validated-Ended path t cfg h _ read decoded refl

  read-Ended :
      (path : Text) (h : Store) (o : Option Text)
      → read_file path ≡ o
      → Ended path (
          (or_missing unreadable o >>= λ t. or_missing undecodable (unmarshal t) >>= λ cfg.
          or_exit invalid (validate_and_set_defaults cfg))
          >>= λ cfg'. start_up url_parse url_string registry proxy_of load_key_pair cfg' h)
  read-Ended path h none read = read
  read-Ended path h (some t) read = decoded-Ended path t h _ read refl

  -- However the start ends, it has its reason in the file. The program listens only with what the
  -- checks make of the file, with a router made of it and with its own certificates. It ends before
  -- only at a file that cannot be read or decoded; at a configuration that the checks refuse; under
  -- strict initialisation with the error of a balancer of one of the services that have targets; at
  -- a plugin of one of the routes whose Init panics; or under HTTPS at one of the certificates,
  -- which its files do not give and which the error names.
  pub run_main-Ended :
      (path : Text) (h : Store)
      → Ended path
          (run_main url_parse url_string registry proxy_of load_key_pair read_file unmarshal path h)
  unfolding run_main load_config
  run_main-Ended path h = read-Ended path h _ refl
