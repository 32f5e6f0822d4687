-- ===== src/Config/Validate/Loops.antt =====
-- The loops of `validateAndSetDefaults` over the services and the routes, and the whole of it.
use corridor.Prelude.{
  ℕ, suc, ◌≡◌, refl, ◌∙◌, sym, subst, ◌≢◌, ◌⊎◌, inl, inr, List, [], ◌∷◌, true, false, Option, none,
  some, map, ok, arith, All, In, >>=-eq-ok, refuse-eq-ok, ok-injective, Bool-cases,
}
use corridor.Prelude.Int.{pos}
use corridor.Prelude.Text.{Text, ◌==◌, eq_iff}
use corridor.Config.{Config, GlobalConfig, ServiceConfig, RouteConfig, TlsConfig, CertificateConfig}
use corridor.Config.Validate.{
  is_empty, is_nil, seen, default_global, check_certificates, check_tls, check_service,
  check_services, check_route, check_routes, validate_and_set_defaults,
}
use corridor.Config.Validate.WellFormed.{IsBalanced, check_service-ServiceChecked}

-- No name stands twice.
abbrev pub Distinct : List Text → Type 0
Distinct [] = Unit
Distinct (x ∷ xs) = ¬ In x xs × Distinct xs

seen_complete : (names : List Text) (s : Text) → In s names → seen names s ≡ true
unfolding seen
seen_complete [] s m = absurd m
seen_complete (n ∷ names) s (inl e) = ground (arith, eq_iff n s)
seen_complete (n ∷ names) s (inr m) = ground (arith, seen_complete names s m)

seen_sound : (names : List Text) (s : Text) → seen names s ≡ true → In s names
unfolding seen
seen_sound [] s h = absurd (cc)
seen_sound (n ∷ names) s h = elim (Bool-cases (n == s)) [
  | inl same ↦ inl (sym ((eq_iff n s).0 same))
  | inr other ↦ inr (seen_sound names s (ground arith))
]

-- None of `xs` is among `names` or twice in `xs`, as the loops test it.
abbrev Fresh : List Text → List Text → Type 0
Fresh names [] = Unit
Fresh names (x ∷ xs) = (seen names x ≡ false) × Fresh (x ∷ names) xs

Fresh-not-In : (names xs : List Text) (s : Text) → Fresh names xs → In s names → ¬ In s xs
Fresh-not-In names [] s f m k = k
Fresh-not-In names (x ∷ xs) s (f, fs) m (inl e) =
    let both : seen names x ≡ true = seen_complete names x (subst (λ t. In t names) e m) in cc
Fresh-not-In names (x ∷ xs) s (f, fs) m (inr k) = Fresh-not-In (x ∷ names) xs s fs (inr m) k

Fresh-Distinct : (names xs : List Text) → Fresh names xs → Distinct xs
Fresh-Distinct names [] f = tt
Fresh-Distinct names (x ∷ xs) (f, fs) =
    (Fresh-not-In (x ∷ names) xs x fs (inl refl), Fresh-Distinct (x ∷ names) xs fs)

abbrev pub service_names : List ServiceConfig → List Text
service_names = map λ s. s.name

record ServicesChecked (names : List Text) (out : List ServiceConfig × List Text) : Type 0 where
  balanced : All (λ s. (s.name ≢ []) × IsBalanced s.load_balancing) out.0
  fresh : Fresh names (service_names out.0)
  known : (n : Text) → In n out.1 → In n names ⊎ In n (service_names out.0)

-- A name that the later rounds know is an old one or that of a service from here on.
known_step :
    (names rest : List Text) (x y n : Text)
    → x ≡ y
    → In n (y ∷ names) ⊎ In n rest
    → In n names ⊎ In n (x ∷ rest)
known_step names rest x y n e (inl (inl here)) = inr (inl (here ∙ sym e))
known_step names rest x y n e (inl (inr old)) = inl old
known_step names rest x y n e (inr later) = inr (inr later)

check_services-ServicesChecked :
    (i : ℕ) (names : List Text) (ss : List ServiceConfig) (out : List ServiceConfig × List Text)
    → check_services i names ss ≡ ok out
    → ServicesChecked names out
unfolding check_services
check_services-ServicesChecked i names [] out h =
    subst (ServicesChecked names) (ok-injective h)
      (record { balanced = tt; fresh = tt; known = λ n m. inl m })
check_services-ServicesChecked i names (s ∷ ss) out h =
    let (s', checked, h1) = >>=-eq-ok (check_service i names s) _ h in
    let (rest, rested, h2) = >>=-eq-ok (check_services (suc i) (s.name ∷ names) ss) _ h1 in
    let c = check_service-ServiceChecked i names s s' checked in
    let r = check_services-ServicesChecked (suc i) (s.name ∷ names) ss rest rested in
    subst (ServicesChecked names) (ok-injective h2) (record {
      balanced = ((λ e. c.named (sym c.name ∙ e), c.balanced), r.balanced);
      fresh = (
        subst (λ n. seen names n ≡ false) (sym c.name) c.fresh,
        subst (λ n. Fresh (n ∷ names) (service_names rest.0)) (sym c.name) r.fresh,
      );
      known = λ n m. known_step names _ s'.name s.name n c.name (r.known n m);
    })

-- A route that can be served: an identifier, a path, and a service that exists.
abbrev pub IsRoutable : List Text → RouteConfig → Type 0
IsRoutable services r = (r.id ≢ []) × (r.paths ≢ []) × In r.service services

abbrev pub route_ids : List RouteConfig → List Text
route_ids = map λ r. r.id

record RoutesChecked (services ids : List Text) (rs : List RouteConfig) : Type 0 where
  routable : All (IsRoutable services) rs
  fresh : Fresh ids (route_ids rs)

check_route-IsRoutable :
    (i : ℕ) (services ids : List Text) (r : RouteConfig)
    → check_route i services ids r ≡ ok tt
    → IsRoutable services r × (seen ids r.id ≡ false)
unfolding check_route
check_route-IsRoutable i services ids r h =
    let (named, h1) = refuse-eq-ok (is_empty r.id) _ _ h in
    let (fresh, h2) = refuse-eq-ok (seen ids r.id) _ _ h1 in
    let (pathed, h3) = refuse-eq-ok (is_nil r.paths) _ _ h2 in
    let (served, h4) = refuse-eq-ok (is_empty r.service) _ _ h3 in
    let found : seen services r.service ≡ true = ground arith in
    ((ground (arith, eq_iff r.id []), ground arith, seen_sound services r.service found), fresh)

check_routes-RoutesChecked :
    (i : ℕ) (services ids : List Text) (rs : List RouteConfig)
    → check_routes i services ids rs ≡ ok tt
    → RoutesChecked services ids rs
unfolding check_routes
check_routes-RoutesChecked i services ids [] h = record { routable = tt; fresh = tt }
check_routes-RoutesChecked i services ids (r ∷ rs) h =
    let (u, checked, h1) = >>=-eq-ok (check_route i services ids r) _ h in
    let c = check_route-IsRoutable i services ids r checked in
    let later = check_routes-RoutesChecked (suc i) services (r.id ∷ ids) rs h1 in
    record { routable = (c.0, later.routable); fresh = (c.1, later.fresh) }

abbrev pub IsComplete : CertificateConfig → Type 0
IsComplete cert = (cert.hostname ≢ []) × (cert.cert_file ≢ []) × (cert.key_file ≢ [])

check_certificates-All :
    (i : ℕ) (certs : List CertificateConfig)
    → check_certificates i certs ≡ ok tt
    → All IsComplete certs
unfolding check_certificates
check_certificates-All i [] h = tt
check_certificates-All i (c ∷ certs) h =
    let (host, h1) = refuse-eq-ok (is_empty c.hostname) _ _ h in
    let (cert, h2) = refuse-eq-ok (is_empty c.cert_file) _ _ h1 in
    let (key, h3) = refuse-eq-ok (is_empty c.key_file) _ _ h2 in
    (
      (
        ground (arith, eq_iff c.hostname []),
        ground (arith, eq_iff c.cert_file []),
        ground (arith, eq_iff c.key_file []),
      ),
      check_certificates-All (suc i) certs h3,
    )

abbrev pub HasCertificates : Option TlsConfig → Type 0
HasCertificates none = ⊥
HasCertificates (some tls) = (tls.certificates ≢ []) × All IsComplete tls.certificates

check_tls-HasCertificates :
    (tls : Option TlsConfig) → check_tls true tls ≡ ok tt → HasCertificates tls
unfolding check_tls
check_tls-HasCertificates none h = cc
check_tls-HasCertificates (some tls) h =
    let (given, h1) = refuse-eq-ok (is_nil tls.certificates) _ _ h in
    (ground arith, check_certificates-All 0 tls.certificates h1)

-- What the gateway's other parts rely on.
pub record IsWellFormed (c : Config) : Type 0 where
  pub port : c.global.port ≢ pos 0
  pub timeout : c.global.default_timeout_ms ≢ pos 0
  pub log_level : c.global.log_level ≢ []
  pub certificates : c.global.enable_https ≡ true → HasCertificates c.tls
  pub services : All (λ s. (s.name ≢ []) × IsBalanced s.load_balancing) c.services
  pub names : Distinct (service_names c.services)
  pub routes : All (IsRoutable (service_names c.services)) c.routes
  pub ids : Distinct (route_ids c.routes)

default_global_sets :
    (g : GlobalConfig)
    → ((default_global g).port ≢ pos 0)
      × ((default_global g).default_timeout_ms ≢ pos 0)
      × ((default_global g).log_level ≢ [])
      × ((default_global g).enable_https ≡ g.enable_https)
unfolding default_global
default_global_sets g = ground (arith, eq_iff g.log_level [])

-- A service name that the routes may use is that of a service.
IsRoutable-All :
    (names names' : List Text) (rs : List RouteConfig)
    → ((n : Text) → In n names → In n names')
    → All (IsRoutable names) rs
    → All (IsRoutable names') rs
IsRoutable-All names names' [] f h = tt
IsRoutable-All names names' (r ∷ rs) f ((a, b, m), h) =
    ((a, b, f r.service m), IsRoutable-All names names' rs f h)

only_new : (n : Text) (names : List Text) → In n [] ⊎ In n names → In n names
only_new n names (inl m) = absurd m
only_new n names (inr m) = m

-- A configuration that `validateAndSetDefaults` accepts has a port, a timeout and a log level;
-- under HTTPS, complete certificates; services of distinct names, each with a target, a usable
-- strategy and a sound health check; and routes of distinct identifiers, each with a path and
-- the name of one of the services.
pub validate-IsWellFormed :
    (cfg cfg' : Config) → validate_and_set_defaults cfg ≡ ok cfg' → IsWellFormed cfg'
unfolding validate_and_set_defaults
validate-IsWellFormed cfg cfg' h =
    let (u, tls, h1) = >>=-eq-ok (check_tls cfg.global.enable_https cfg.tls) _ h in
    let (out, serviced, h2) = >>=-eq-ok (check_services 0 [] cfg.services) _ h1 in
    let (v, routed, h3) = >>=-eq-ok (check_routes 0 out.1 [] cfg.routes) _ h2 in
    let s = check_services-ServicesChecked 0 [] cfg.services out serviced in
    let r = check_routes-RoutesChecked 0 out.1 [] cfg.routes routed in
    let (port, timeout, level, https) = default_global_sets cfg.global in
    subst IsWellFormed (ok-injective h3) (record {
      port = port;
      timeout = timeout;
      log_level = level;
      certificates = λ e.
          check_tls-HasCertificates cfg.tls
            (subst (λ b. check_tls b cfg.tls ≡ ok tt) (sym https ∙ e) tls);
      services = s.balanced;
      names = Fresh-Distinct [] _ s.fresh;
      routes = IsRoutable-All out.1 _ cfg.routes (λ n m. only_new n _ (s.known n m)) r.routable;
      ids = Fresh-Distinct [] _ r.fresh;
    })
