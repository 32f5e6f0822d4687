-- ===== src/HealthChecker/Monitored.antt =====
-- Which targets the health checker monitors.
use corridor.Prelude.{
  ◌≡◌, ◌↔◌, refl, sym, ◌∙◌, ap, List, [], ◌∷◌, ◌++◌, Option, none, some, In, inl, inr, ◌⊎◌,
  some-injective, subst,
}
use corridor.Prelude.Text.{Text}
use corridor.Config.{ServiceConfig, LoadBalancingConfig, HealthCheckConfig, TargetConfig}
use corridor.LoadBalancer.Target.{Url, Store}
use corridor.Proxy.{Balancers}
use corridor.HealthChecker.{TargetStatus, initial_status, start_target}
use corridor.HealthChecker.Start.{Checking, start_targets, start_checked, start_service, start}

In-append_one : {A : Type 0} (x y : A) (xs : List A) → In x (xs ++ (y ∷ [])) → In x xs ⊎ (x ≡ y)
In-append_one x y [] (inl e) = inr e
In-append_one x y [] (inr m) = elim m [ ]
In-append_one x y (z ∷ xs) (inl e) = inl (inl e)
In-append_one x y (z ∷ xs) (inr m) = elim (In-append_one x y xs m) [
  | inl before ↦ inl (inr before)
  | inr last ↦ inr last
]

append_one-In : {A : Type 0} (x y : A) (xs : List A) → In x xs ⊎ (x ≡ y) → In x (xs ++ (y ∷ []))
append_one-In x y [] (inl m) = elim m [ ]
append_one-In x y [] (inr e) = inl e
append_one-In x y (z ∷ xs) (inl (inl e)) = inl e
append_one-In x y (z ∷ xs) (inl (inr m)) = inr (append_one-In x y xs (inl m))
append_one-In x y (z ∷ xs) (inr e) = inr (append_one-In x y xs (inr e))

-- The status is the first one of a target of the list.
abbrev pub IsFirst : Text → HealthCheckConfig → List TargetConfig → TargetStatus → Type 0
IsFirst service_name hc ts s =
    (t : TargetConfig) × In t ts × (s ≡ initial_status service_name t.url hc)

-- The status is the first one of a target of a service of the list that has health checks.
pub record IsConfigured (ss : List ServiceConfig) (s : TargetStatus) : Type 0 where
  pub service : ServiceConfig
  pub listed : In service ss
  pub balancing : LoadBalancingConfig
  pub balanced : service.load_balancing ≡ some balancing
  pub checks : HealthCheckConfig
  pub checked : balancing.health_checks ≡ some checks
  pub is_first : IsFirst service.name checks balancing.targets s

module _ (url_string : Url → Text) (lbs : Balancers) (s : TargetStatus) where
  start_targets_sound :
      (name : Text) (hc : HealthCheckConfig) (ts : List TargetConfig) (ch : Checking)
      → In s (start_targets url_string lbs name hc ts ch).monitored
      → In s ch.monitored ⊎ IsFirst name hc ts s
  unfolding start_targets start_target
  start_targets_sound name hc [] ch m = inl m
  start_targets_sound name hc (t ∷ ts) ch m = elim (start_targets_sound name hc ts _ m) [
    | inr (u, i, e) ↦ inr (u, inr i, e)
    | inl now ↦ elim (In-append_one s (initial_status name t.url hc) ch.monitored now) [
      | inl before ↦ inl before
      | inr e ↦ inr (t, inl refl, e)
    ]
  ]

  start_targets_complete :
      (name : Text) (hc : HealthCheckConfig) (ts : List TargetConfig) (ch : Checking)
      → In s ch.monitored ⊎ IsFirst name hc ts s
      → In s (start_targets url_string lbs name hc ts ch).monitored
  unfolding start_targets start_target
  start_targets_complete name hc [] ch (inl m) = m
  start_targets_complete name hc [] ch (inr (u, i, e)) = elim i [ ]
  start_targets_complete name hc (t ∷ ts) ch (inl m) =
      start_targets_complete name hc ts _ (inl (append_one-In s _ ch.monitored (inl m)))
  start_targets_complete name hc (t ∷ ts) ch (inr (u, inl e, f)) =
      start_targets_complete name hc ts _
        (inl (append_one-In s _ ch.monitored (inr (f ∙ ap (λ x. initial_status name x.url hc) e))))
  start_targets_complete name hc (t ∷ ts) ch (inr (u, inr i, f)) =
      start_targets_complete name hc ts _ (inr (u, i, f))

  -- A service's own statuses.
  abbrev OfService : Text → Option LoadBalancingConfig → Type 0
  OfService name o =
      (lb : LoadBalancingConfig) × (o ≡ some lb)
      × (hc : HealthCheckConfig) × (lb.health_checks ≡ some hc)
      × IsFirst name hc lb.targets s

  start_checked_sound :
      (name : Text) (ts : List TargetConfig) (o : Option HealthCheckConfig) (ch : Checking)
      → In s (start_checked url_string lbs name ts o ch).monitored
      → In s ch.monitored ⊎ ((hc : HealthCheckConfig) × (o ≡ some hc) × IsFirst name hc ts s)
  start_checked_sound name ts none ch m = inl m
  start_checked_sound name ts (some hc) ch m = elim (start_targets_sound name hc ts ch m) [
    | inl before ↦ inl before
    | inr f ↦ inr (hc, refl, f)
  ]

  start_service_sound :
      (name : Text) (o : Option LoadBalancingConfig) (ch : Checking)
      → In s (start_service url_string lbs name o ch).monitored
      → In s ch.monitored ⊎ OfService name o
  start_service_sound name none ch m = inl m
  start_service_sound name (some lb) ch m =
      elim (start_checked_sound name lb.targets lb.health_checks ch m) [
        | inl before ↦ inl before
        | inr (hc, e, f) ↦ inr (lb, refl, hc, e, f)
      ]

  start_checked_complete :
      (name : Text) (ts : List TargetConfig) (o : Option HealthCheckConfig) (ch : Checking)
      → In s ch.monitored ⊎ ((hc : HealthCheckConfig) × (o ≡ some hc) × IsFirst name hc ts s)
      → In s (start_checked url_string lbs name ts o ch).monitored
  start_checked_complete name ts none ch (inl m) = m
  start_checked_complete name ts none ch (inr (hc, e, f)) = absurd (cc)
  start_checked_complete name ts (some hc) ch (inl m) = start_targets_complete name hc ts ch (inl m)
  start_checked_complete name ts (some hc) ch (inr (hc', e, f)) =
      start_targets_complete name hc ts ch
        (inr (subst (λ x. IsFirst name x ts s) (sym (some-injective e)) f))

  start_service_complete :
      (name : Text) (o : Option LoadBalancingConfig) (ch : Checking)
      → In s ch.monitored ⊎ OfService name o
      → In s (start_service url_string lbs name o ch).monitored
  start_service_complete name none ch (inl m) = m
  start_service_complete name none ch (inr (lb, e, hc, c, f)) = absurd (cc)
  start_service_complete name (some lb) ch (inl m) =
      start_checked_complete name lb.targets lb.health_checks ch (inl m)
  start_service_complete name (some lb) ch (inr (lb', e, hc, c, f)) =
      let same = sym (some-injective e) in
      start_checked_complete name lb.targets lb.health_checks ch (
        inr (
          hc,
          ap (λ x. x.health_checks) (sym same) ∙ c,
          subst (λ x. IsFirst name hc x.targets s) same f,
        ))

  IsConfigured-first :
      (ss : List ServiceConfig) (v : ServiceConfig)
      → OfService v.name v.load_balancing
      → IsConfigured (v ∷ ss) s
  IsConfigured-first ss v (lb, e, hc, c, f) = record {
    service = v;
    listed = inl refl;
    balancing = lb;
    balanced = e;
    checks = hc;
    checked = c;
    is_first = f;
  }

  IsConfigured-later :
      (ss : List ServiceConfig) (v : ServiceConfig) → IsConfigured ss s → IsConfigured (v ∷ ss) s
  IsConfigured-later ss v c = record {
    service = c.service;
    listed = inr c.listed;
    balancing = c.balancing;
    balanced = c.balanced;
    checks = c.checks;
    checked = c.checked;
    is_first = c.is_first;
  }

  IsConfigured-cases :
      (ss : List ServiceConfig) (v : ServiceConfig)
      → IsConfigured (v ∷ ss) s
      → OfService v.name v.load_balancing ⊎ IsConfigured ss s
  IsConfigured-cases ss v c = elim c.listed [
    | inl e ↦ inl (
        subst (λ x. OfService x.name x.load_balancing) e
          (c.balancing, c.balanced, c.checks, c.checked, c.is_first))
    | inr m ↦ inr (record {
      service = c.service;
      listed = m;
      balancing = c.balancing;
      balanced = c.balanced;
      checks = c.checks;
      checked = c.checked;
      is_first = c.is_first;
    })
  ]

  start_sound :
      (ss : List ServiceConfig) (ch : Checking)
      → In s (start url_string lbs ss ch).monitored
      → In s ch.monitored ⊎ IsConfigured ss s
  unfolding start
  start_sound [] ch m = inl m
  start_sound (v ∷ ss) ch m = elim (start_sound ss _ m) [
    | inr c ↦ inr (IsConfigured-later ss v c)
    | inl now ↦ elim (start_service_sound v.name v.load_balancing ch now) [
      | inl before ↦ inl before
      | inr f ↦ inr (IsConfigured-first ss v f)
    ]
  ]

  start_complete :
      (ss : List ServiceConfig) (ch : Checking)
      → In s ch.monitored ⊎ IsConfigured ss s
      → In s (start url_string lbs ss ch).monitored
  unfolding start
  start_complete [] ch (inl m) = m
  start_complete [] ch (inr c) = elim c.listed [ ]
  start_complete (v ∷ ss) ch (inl m) =
      start_complete ss _ (inl (start_service_complete v.name v.load_balancing ch (inl m)))
  start_complete (v ∷ ss) ch (inr c) = elim (IsConfigured-cases ss v c) [
    | inl own ↦
        start_complete ss _ (inl (start_service_complete v.name v.load_balancing ch (inr own)))
    | inr later ↦ start_complete ss _ (inr later)
  ]

  nothing_before : {T : Type 0} → In s [] ⊎ T → T
  nothing_before (inl m) = elim m [ ]
  nothing_before (inr t) = t

  -- Started with no status, the health checker monitors exactly the statuses of the targets of the
  -- services that have health checks, each at its first state, healthy and with no counted
  -- results, under its service's name and checks.
  pub start_iff :
      (ss : List ServiceConfig) (h : Store)
      → In s
          (start url_string lbs ss
            (record { statuses = []; monitored = []; targets = h })).monitored
        ↔ IsConfigured ss s
  start_iff ss h = (λ m. nothing_before (start_sound ss _ m), λ c. start_complete ss _ (inr c))
