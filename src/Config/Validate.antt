-- ===== src/Config/Validate.antt =====
-- app/config/config.go: `validateAndSetDefaults`, one function for each of its loops. The loop over
-- the services works on a copy of the element; the load balancing behind its pointer is shared.
pub mod WellFormed
pub mod Loops
use corridor.Prelude.{
  ℕ, suc, List, [], ◌∷◌, Bool, true, false, not, ◌&&◌, ◌||◌, Option, none, some, map, any, length,
  ltb, Result, ok, err, ◌>>=◌, ◌>>◌, refuse, if◌then◌else◌,
}
use corridor.Prelude.Int.{ℤ, pos, is_zero, leb_ℤ}
use corridor.Prelude.Text.{Text, text, ◌==◌}
use corridor.Config.{
  Config, GlobalConfig, TlsConfig, CertificateConfig, ServiceConfig, LoadBalancingConfig,
  TargetConfig, HealthCheckConfig, RouteConfig,
}

-- One constructor for each `fmt.Errorf`, with what its message names.
pub data ConfigError : Type 0 where
  no_tls_certificates : ConfigError
  hostname_required cert_file_required key_file_required : ℕ → ConfigError
  service_name_required : ℕ → ConfigError
  service_not_unique no_upstream both_upstreams no_targets strategy_required : Text → ConfigError
  invalid_strategy : Text → Text → ConfigError
  no_probe : Text → ConfigError
  route_id_required : ℕ → ConfigError
  route_not_unique paths_required service_required : Text → ConfigError
  service_not_found : Text → Text → ConfigError

abbrev pub is_empty : Text → Bool
is_empty s = s == []

abbrev pub is_nil {ℓ} : {A : Type ℓ} → List A → Bool
is_nil [] = true
is_nil (_ ∷ _) = false

-- `names[s]` on a map that holds `true` at the names seen so far.
unfoldable pub seen : List Text → Text → Bool
seen names s = any (λ n. n == s) names

unfoldable pub default_global : GlobalConfig → GlobalConfig
default_global g = record g {
  port = if is_zero g.port then pos 8080 else g.port;
  log_level = if is_empty g.log_level then text "info" else g.log_level;
  default_timeout_ms = if is_zero g.default_timeout_ms then pos 5000 else g.default_timeout_ms;
}

unfoldable pub check_certificates : ℕ → List CertificateConfig → Result ConfigError (Unit {0})
check_certificates i [] = ok tt
check_certificates i (cert ∷ certs) = do
  refuse (is_empty cert.hostname) (hostname_required i)
  refuse (is_empty cert.cert_file) (cert_file_required i)
  refuse (is_empty cert.key_file) (key_file_required i)
  check_certificates (suc i) certs

unfoldable pub check_tls : Bool → Option TlsConfig → Result ConfigError (Unit {0})
unfolding check_certificates
check_tls false tls = ok tt
check_tls true none = err no_tls_certificates
check_tls true (some tls) = do
  refuse (is_nil tls.certificates) no_tls_certificates
  check_certificates 0 tls.certificates

-- `service.LoadBalancing == nil || len(service.LoadBalancing.Targets) == 0`.
abbrev pub lacks_targets : Option LoadBalancingConfig → Bool
lacks_targets none = true
lacks_targets (some lb) = is_nil lb.targets

-- The pointer's object, or the `&LoadBalancingConfig{}` that replaces nil.
abbrev pub or_new : Option LoadBalancingConfig → LoadBalancingConfig
or_new none = record { strategy = []; targets = []; health_checks = none }
or_new (some lb) = lb

abbrev plain_target : Text → TargetConfig
plain_target url = record { url = url; weight = pos 0 }

-- Targets made from `upstream_url` or `upstream_urls`.
unfoldable pub populate : ServiceConfig → ServiceConfig
populate s =
    if not (is_empty s.upstream_url) && lacks_targets s.load_balancing
    then record s {
      load_balancing =
          some (record (or_new s.load_balancing) { targets = plain_target s.upstream_url ∷ [] });
      upstream_url = [];
    }
    else if not (is_nil s.upstream_urls) && lacks_targets s.load_balancing
    then record s {
      load_balancing = some (record (or_new s.load_balancing) {
        strategy =
            if is_empty (or_new s.load_balancing).strategy
            then text "round-robin"
            else (or_new s.load_balancing).strategy;
        targets = map plain_target s.upstream_urls;
      });
      upstream_urls = [];
    }
    else s

abbrev pub is_valid_strategy : Text → Bool
is_valid_strategy s =
    s == text "round-robin"
    || s == text "least-connections"
    || s == text "random"
    || s == text "weighted"

abbrev default_to : ℤ → ℤ → ℤ
default_to d n = if leb_ℤ n (pos 0) then d else n

unfoldable pub check_health : Text → HealthCheckConfig → Result ConfigError HealthCheckConfig
check_health name hc = do
  refuse (is_empty hc.ready && is_empty hc.live) (no_probe name)
  ok (record hc {
    interval = default_to (pos 30) hc.interval;
    timeout = default_to (pos 5) hc.timeout;
    unhealthy_threshold = default_to (pos 2) hc.unhealthy_threshold;
    healthy_threshold = default_to (pos 1) hc.healthy_threshold;
  })

abbrev check_health? :
    Text → Option HealthCheckConfig → Result ConfigError (Option HealthCheckConfig)
check_health? name none = ok none
check_health? name (some hc) = check_health name hc >>= λ hc'. ok (some hc')

-- A strategy that was left out: allowed for one target only.
unfoldable pub default_strategy :
    Text → LoadBalancingConfig → Result ConfigError LoadBalancingConfig
default_strategy name lb =
    if is_empty lb.strategy
    then (do
      refuse (ltb 1 (length lb.targets)) (strategy_required name)
      ok (record lb { strategy = text "round-robin" }))
    else ok lb

-- `if service.LoadBalancing != nil { … }`.
unfoldable pub check_load_balancing :
    Text → LoadBalancingConfig → Result ConfigError LoadBalancingConfig
unfolding default_strategy check_health
check_load_balancing name lb = do
  refuse (is_nil lb.targets) (no_targets name)
  lb' ← default_strategy name lb
  refuse (not (is_valid_strategy lb'.strategy)) (invalid_strategy name lb'.strategy)
  hc ← check_health? name lb'.health_checks
  ok (record lb' { health_checks = hc })

-- The pointer of the loop's copy `was` decides; what it points to is the populated object.
unfoldable pub check_copy :
    Text
    → Option LoadBalancingConfig
    → Option LoadBalancingConfig
    → Result ConfigError (Option LoadBalancingConfig)
unfolding check_load_balancing
check_copy name none now = ok now
check_copy name (some _) none = ok none
check_copy name (some _) (some lb) = check_load_balancing name lb >>= λ lb'. ok (some lb')

-- One round of the loop over `cfg.Services`.
unfoldable pub check_service : ℕ → List Text → ServiceConfig → Result ConfigError ServiceConfig
unfolding seen populate check_copy
check_service i names s = do
  refuse (is_empty s.name) (service_name_required i)
  refuse (seen names s.name) (service_not_unique s.name)
  refuse (is_nil s.upstream_urls && is_empty s.upstream_url && lacks_targets s.load_balancing)
      (no_upstream s.name)
  refuse
      (not (is_empty s.upstream_url)
        && (not (is_nil s.upstream_urls) || not (lacks_targets s.load_balancing)))
      (both_upstreams s.name)
  lb ← check_copy s.name s.load_balancing (populate s).load_balancing
  ok (record (populate s) { load_balancing = lb })

unfoldable pub check_services :
    ℕ → List Text → List ServiceConfig → Result ConfigError (List ServiceConfig × List Text)
unfolding check_service
check_services i names [] = ok ([], names)
check_services i names (s ∷ rest) = do
  s' ← check_service i names s
  (rest', names') ← check_services (suc i) (s.name ∷ names) rest
  ok (s' ∷ rest', names')

-- One round of the loop over `cfg.Routes`.
unfoldable pub check_route : ℕ → List Text → List Text → RouteConfig → Result ConfigError (Unit {0})
unfolding seen
check_route i services ids r = do
  refuse (is_empty r.id) (route_id_required i)
  refuse (seen ids r.id) (route_not_unique r.id)
  refuse (is_nil r.paths) (paths_required r.id)
  refuse (is_empty r.service) (service_required r.id)
  refuse (not (seen services r.service)) (service_not_found r.id r.service)

unfoldable pub check_routes :
    ℕ → List Text → List Text → List RouteConfig → Result ConfigError (Unit {0})
unfolding check_route
check_routes i services ids [] = ok tt
check_routes i services ids (r ∷ rest) =
    check_route i services ids r >> check_routes (suc i) services (r.id ∷ ids) rest

unfoldable pub validate_and_set_defaults : Config → Result ConfigError Config
unfolding default_global check_tls check_services check_routes
validate_and_set_defaults cfg = do
  check_tls cfg.global.enable_https cfg.tls
  (services, names) ← check_services 0 [] cfg.services
  check_routes 0 names [] cfg.routes
  ok (record cfg { global = default_global cfg.global; services = services })
