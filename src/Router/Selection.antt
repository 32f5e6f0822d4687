-- ===== src/Router/Selection.antt =====
-- Which route a request gets: the first one that covers it and whose service is known.
use corridor.Prelude.{
  ◌≡◌, ◌↔◌, ◌⊎◌, inl, inr, refl, sym, ◌∙◌, ap, List, [], ◌∷◌, ◌++◌, Bool, true, ◌||◌, none, some,
  In, All, any, arith, subst, Bool-cases, Option-cases, some-injective,
}
use corridor.Prelude.Text.{Text, equal_fold}
use corridor.Prelude.Dict.{Dict, lookup}
use corridor.Config.{RouteConfig, ServiceConfig}
use corridor.Router.Matching.{
  Request, hostname_of, match_host, match_method, match_path, match_route, is_blank, is_nil,
}
use corridor.Router.Paths.{Covers, match_path_iff}
use corridor.Router.Hosts.{CoversHost, match_host_iff}
use corridor.Router.{MatchedRouteInfo, find_route}

any_sound :
    (p : Text → Bool) (xs : List Text) → any p xs ≡ true → (x : Text) × In x xs × (p x ≡ true)
any_sound p [] h = absurd (cc)
any_sound p (x ∷ xs) h = elim (Bool-cases (p x)) [
  | inl here ↦ (x, inl refl, here)
  | inr there ↦ let (y, m, e) = any_sound p xs (ground arith) in (y, inr m, e)
]

any_complete :
    (p : Text → Bool) (xs : List Text) (x : Text) → In x xs → p x ≡ true → any p xs ≡ true
any_complete p [] x m h = absurd m
any_complete p (y ∷ xs) x (inl e) h = rw (sym (ap p e) ∙ h) refl
any_complete p (y ∷ xs) x (inr m) h = ground (arith, any_complete p xs x m h)

-- The request's host, method and path fit the route. A blank host and no methods fit any.
pub record RouteCovers (r : RouteConfig) (req : Request) : Type 0 where
  pub host : (is_blank r.host ≡ true) ⊎ CoversHost r.host (hostname_of req.host)
  pub method :
      (is_nil r.methods ≡ true) ⊎ ((m : Text) × In m r.methods × (equal_fold m req.method ≡ true))
  pub path : (p : Text) × In p r.paths × Covers p req.path

match_route_sound : (r : RouteConfig) (req : Request) → match_route r req ≡ true → RouteCovers r req
unfolding match_route match_method
match_route_sound r req h = record { host = host; method = method; path = path }
  where
    hostname : Text
    hostname = hostname_of req.host

    host : (is_blank r.host ≡ true) ⊎ CoversHost r.host hostname
    host = elim (Bool-cases (is_blank r.host)) [
      | inl blank ↦ inl blank
      | inr given ↦ inr ((match_host_iff r.host hostname).0 (ground arith))
    ]

    method :
        (is_nil r.methods ≡ true) ⊎ ((m : Text) × In m r.methods × (equal_fold m req.method ≡ true))
    method = elim (Bool-cases (is_nil r.methods)) [
      | inl nothing ↦ inl nothing
      | inr given ↦ inr (any_sound (λ m. equal_fold m req.method) r.methods (ground arith))
    ]

    path : (p : Text) × In p r.paths × Covers p req.path
    path =
        let (p, m, e) = any_sound (λ q. match_path req.path q) r.paths (ground arith) in
        (p, m, (match_path_iff req.path p).0 e)

match_route_complete :
    (r : RouteConfig) (req : Request) → RouteCovers r req → match_route r req ≡ true
unfolding match_route match_method
match_route_complete r req c = ground (arith, host c.host, method c.method, path c.path)
  where
    host :
        (is_blank r.host ≡ true) ⊎ CoversHost r.host (hostname_of req.host)
        → (is_blank r.host || match_host r.host (hostname_of req.host)) ≡ true
    host (inl blank) = rw blank
    host (inr covers) =
        let e = (match_host_iff r.host (hostname_of req.host)).1 covers in ground arith

    method :
        (is_nil r.methods ≡ true) ⊎ ((m : Text) × In m r.methods × (equal_fold m req.method ≡ true))
        → (is_nil r.methods || any (λ m. equal_fold m req.method) r.methods) ≡ true
    method (inl nothing) = rw nothing
    method (inr (m, found, e)) =
        let e = any_complete (λ q. equal_fold q req.method) r.methods m found e in ground arith

    path :
        (p : Text) × In p r.paths × Covers p req.path
        → any (λ pattern. match_path req.path pattern) r.paths ≡ true
    path (p, m, covers) =
        any_complete (λ q. match_path req.path q) r.paths p m ((match_path_iff req.path p).1 covers)

-- A route's tests pass exactly when its host, one of its methods and one of its path patterns
-- cover the request; a blank host and an empty list of methods cover any.
pub match_route_iff :
    (r : RouteConfig) (req : Request) → (match_route r req ≡ true) ↔ RouteCovers r req
match_route_iff r req = (match_route_sound r req, match_route_complete r req)

module _ (services : Dict ServiceConfig) (req : Request) where
  -- A route that the loop passes over: it does not cover the request, or its service is unknown.
  abbrev pub Skipped : RouteConfig → Type 0
  Skipped r = ¬ RouteCovers r req ⊎ (lookup r.service services ≡ none)

  pub record FirstMatch (rs : List RouteConfig) (info : MatchedRouteInfo) : Type 0 where
    pub pre : List RouteConfig
    pub post : List RouteConfig
    pub splits : rs ≡ pre ++ (info.route_config ∷ post)
    pub passed : All Skipped pre
    pub covers : RouteCovers info.route_config req
    pub known : lookup info.route_config.service services ≡ some info.service_config

  find_route_skip :
      (r : RouteConfig) (rs : List RouteConfig)
      → Skipped r
      → find_route (r ∷ rs) services req ≡ find_route rs services req
  unfolding find_route
  find_route_skip r rs (inl no_cover) = elim (Bool-cases (match_route r req)) [
    | inl hit ↦ absurd (no_cover (match_route_sound r req hit))
    | inr miss ↦ rw miss refl
  ]
  find_route_skip r rs (inr unknown) = elim (Bool-cases (match_route r req)) [
    | inl hit ↦ rw (hit, unknown, find_route) refl
    | inr miss ↦ rw miss refl
  ]

  find_route_hit :
      (r : RouteConfig) (rs : List RouteConfig) (s : ServiceConfig)
      → match_route r req ≡ true
      → lookup r.service services ≡ some s
      → find_route (r ∷ rs) services req ≡ some (record { route_config = r; service_config = s })
  unfolding find_route
  find_route_hit r rs s hit known = rw (hit, known, find_route) refl

  FirstMatch-cons :
      (r : RouteConfig) (rs : List RouteConfig) (info : MatchedRouteInfo)
      → Skipped r
      → FirstMatch rs info
      → FirstMatch (r ∷ rs) info
  FirstMatch-cons r rs info s f = record {
    pre = r ∷ f.pre;
    post = f.post;
    splits = ap (◌∷◌ r) f.splits;
    passed = (s, f.passed);
    covers = f.covers;
    known = f.known;
  }

  FirstMatch-here :
      (r : RouteConfig) (rs : List RouteConfig) (s : ServiceConfig) (info : MatchedRouteInfo)
      → match_route r req ≡ true
      → lookup r.service services ≡ some s
      → some (record { route_config = r; service_config = s }) ≡ some info
      → FirstMatch (r ∷ rs) info
  FirstMatch-here r rs s info hit known e = subst (FirstMatch (r ∷ rs)) (some-injective e) (record {
    pre = [];
    post = rs;
    splits = refl;
    passed = tt;
    covers = match_route_sound r req hit;
    known = known;
  })

  find_route_sound :
      (rs : List RouteConfig) (info : MatchedRouteInfo)
      → find_route rs services req ≡ some info
      → FirstMatch rs info
  find_route_sound [] info h = unfold find_route in cc
  find_route_sound (r ∷ rs) info h = elim (Bool-cases (match_route r req)) [
    | inl hit ↦ elim (Option-cases (lookup r.service services)) [
      | inl unknown ↦
          FirstMatch-cons r rs info (inr unknown)
            (find_route_sound rs info (sym (find_route_skip r rs (inr unknown)) ∙ h))
      | inr (s, known) ↦
          FirstMatch-here r rs s info hit known (sym (find_route_hit r rs s hit known) ∙ h)
    ]
    | inr miss ↦
        let skipped : Skipped r = inl (λ c. let e = match_route_complete r req c in cc) in
        FirstMatch-cons r rs info skipped
          (find_route_sound rs info (sym (find_route_skip r rs skipped) ∙ h))
  ]

  find_route_passes :
      (pre rest : List RouteConfig)
      → All Skipped pre
      → find_route (pre ++ rest) services req ≡ find_route rest services req
  find_route_passes [] rest passed = refl
  find_route_passes (r ∷ pre) rest (s, passed) =
      find_route_skip r (pre ++ rest) s ∙ find_route_passes pre rest passed

  find_route_complete :
      (rs : List RouteConfig) (info : MatchedRouteInfo)
      → FirstMatch rs info
      → find_route rs services req ≡ some info
  find_route_complete rs info f =
      ap (λ l. find_route l services req) f.splits
      ∙ find_route_passes f.pre _ f.passed
      ∙ find_route_hit info.route_config f.post info.service_config
          (match_route_complete info.route_config req f.covers) f.known

  -- The loop of `ServeHTTP` selects a route and a service exactly when the route covers the
  -- request, the service is the one of the route's name in the service map, and every route
  -- before it does not cover the request or names a service that is not in the map.
  pub find_route_iff :
      (rs : List RouteConfig) (info : MatchedRouteInfo)
      → (find_route rs services req ≡ some info) ↔ FirstMatch rs info
  find_route_iff rs info = (find_route_sound rs info, find_route_complete rs info)
