-- ===== src/HealthChecker/Loop/Launched.antt =====
-- From `Start` to the goroutines that it launches.
use corridor.Prelude.{
  ℕ, ◌<◌, ◌≡◌, ◌≢◌, refl, sym, ◌∙◌, ap, List, [], ◌∷◌, Option, none, some, Option-cases, true,
  false, length, get_elem?, get_elem?-In, get_elem?_total, eqb, Bool-cases, inl, inr,
}
use corridor.Prelude.Int.{pos}
use corridor.Prelude.Text.{Text}
use corridor.Prelude.Dict.{lookup}
use corridor.Config.{ServiceConfig, LoadBalancingConfig, HealthCheckConfig, TargetConfig}
use corridor.LoadBalancer.Target.{Url, Store, is_healthy, is_healthy-set_health}
use corridor.LoadBalancer.Next.{
  LoadBalancer, round_robin, random, weighted_random, least_connections, targets,
}
use corridor.Proxy.{Balancers, update_target_health, update_found, update_balancer, update_first}
use corridor.Proxy.Health.{
  first_with, set_first, IsUpdatable, update_first-first_with, first_with-set_health,
}
use corridor.HealthChecker.Probe.{Network}
use corridor.HealthChecker.{TargetStatus, initial_status, start_target}
use corridor.HealthChecker.Start.{Checking, start_targets, start_service, start}
use corridor.HealthChecker.Monitored.{IsConfigured, start_iff}
use corridor.HealthChecker.Loop.{entering, System, Run}
use corridor.HealthChecker.Loop.Independent.{Owned, status_after, networks_of, Run-is_healthy}

-- For the numbers that no goroutine has.
abbrev no_status : TargetStatus
no_status = initial_status [] [] (record {
  ready = [];
  live = [];
  interval = pos 0;
  timeout = pos 0;
  unhealthy_threshold = pos 0;
  healthy_threshold = pos 0;
})

abbrev status_or : Option TargetStatus → TargetStatus
status_or none = no_status
status_or (some status) = status

-- `go hc.monitorTarget(status)`, for the statuses of `Start` in their order.
abbrev pub launch : Checking → System
launch ch = record {
  monitors = λ k. record {
    status = status_or (get_elem? ch.monitored k);
    phase = entering;
    ticked = false;
  };
  targets = ch.targets;
  stopped = false;
}

-- No target becomes unhealthy, and none gets another URL.
record Kept (url_string : Url → Text) (h h' : Store) : Type 0 where
  well : (a : ℕ) → is_healthy h a ≡ true → is_healthy h' a ≡ true
  same : (u : Text) (ts : List ℕ) → first_with url_string u h' ts ≡ first_with url_string u h ts

module _ (url_string : Url → Text) where
  Kept-self : (h : Store) → Kept url_string h h
  Kept-self h = record { well = λ a e. e; same = λ u ts. refl }

  Kept-then :
      (h h' h'' : Store) → Kept url_string h h' → Kept url_string h' h'' → Kept url_string h h''
  Kept-then h h' h'' one two = record {
    well = λ a e. two.well a (one.well a e);
    same = λ u ts. two.same u ts ∙ one.same u ts;
  }

  set_first-Kept : (h : Store) (o : Option ℕ) → Kept url_string h (set_first true o h)
  set_first-Kept h none = Kept-self h
  set_first-Kept h (some a) = record {
    well = λ b e.
        is_healthy-set_health true a b h
        ∙ (elim (Bool-cases (eqb a b)) [ inl own ↦ rw own refl | inr other ↦ rw other e ]);
    same = λ u ts. first_with-set_health url_string u true a h ts;
  }

  update_first-Kept :
      (u : Text) (ts : List ℕ) (h : Store) → Kept url_string h (update_first url_string u true ts h)
  update_first-Kept u ts h =
      rw (update_first-first_with url_string u true ts h)
        (set_first-Kept h (first_with url_string u h ts))

  update_found-Kept :
      (u : Text) (o : Option LoadBalancer) (h : Store)
      → Kept url_string h (update_found url_string u true o h)
  unfolding update_balancer
  update_found-Kept u none h = Kept-self h
  update_found-Kept u (some (round_robin name ts i)) h = update_first-Kept u ts h
  update_found-Kept u (some (random name ts)) h = update_first-Kept u ts h
  update_found-Kept u (some (weighted_random name ts)) h = Kept-self h
  update_found-Kept u (some (least_connections name ts)) h = Kept-self h

  module _ (lbs : Balancers) where
    start_targets-Kept :
        (name : Text) (hc : HealthCheckConfig) (ts : List TargetConfig) (ch : Checking)
        → Kept url_string ch.targets (start_targets url_string lbs name hc ts ch).targets
    unfolding start_targets start_target update_target_health
    start_targets-Kept name hc [] ch = Kept-self ch.targets
    start_targets-Kept name hc (t ∷ ts) ch =
        Kept-then ch.targets _ _ (update_found-Kept t.url (lookup name lbs) ch.targets)
          (start_targets-Kept name hc ts _)

    start_service-Kept :
        (name : Text) (o : Option LoadBalancingConfig) (ch : Checking)
        → Kept url_string ch.targets (start_service url_string lbs name o ch).targets
    start_service-Kept name none ch = Kept-self ch.targets
    start_service-Kept name (some lb) ch = elim (Option-cases lb.health_checks) [
      | inl off ↦ rw off (Kept-self ch.targets)
      | inr (hc, on) ↦ rw on (start_targets-Kept name hc lb.targets ch)
    ]

    start-Kept :
        (ss : List ServiceConfig) (ch : Checking)
        → Kept url_string ch.targets (start url_string lbs ss ch).targets
    unfolding start
    start-Kept [] ch = Kept-self ch.targets
    start-Kept (s ∷ ss) ch =
        Kept-then ch.targets _ _ (start_service-Kept s.name s.load_balancing ch)
          (start-Kept ss (start_service url_string lbs s.name s.load_balancing ch))

IsConfigured-is_healthy :
    (ss : List ServiceConfig) (s : TargetStatus) → IsConfigured ss s → s.is_healthy ≡ true
IsConfigured-is_healthy ss s c = let (t, listed, first) = c.is_first in ap (λ x. x.is_healthy) first

-- `Start` over the services, from a store of statuses without any.
abbrev pub started : (Url → Text) → Balancers → List ServiceConfig → Store → Checking
started url_string lbs ss h =
    start url_string lbs ss (record { statuses = []; monitored = []; targets = h })

abbrev pub status_at : Checking → ℕ → TargetStatus
status_at ch k = ((launch ch).monitors k).status

-- The balancer and the target of a status: a round robin or a random balancer of its service, and
-- the first of its targets with the status's URL, which is healthy before the start.
pub record Assigned (url_string : Url → Text) (lbs : Balancers) (lb : LoadBalancer) (a : ℕ)
    (s : TargetStatus) (h : Store) : Type 0 where
  pub known : lookup s.service_name lbs ≡ some lb
  pub up : IsUpdatable lb
  pub found : first_with url_string s.target_url h (targets lb) ≡ some a
  pub well : is_healthy h a ≡ true

module _ (url_string : Url → Text) (lbs : Balancers) (ss : List ServiceConfig) (h : Store)
    (lb : ℕ → LoadBalancer) (address : ℕ → ℕ) where
  abbrev ch : Checking
  ch = started url_string lbs ss h

  abbrev n : ℕ
  n = length ch.monitored

  launch-Owned :
      (k : ℕ)
      → k < n
      → Assigned url_string lbs (lb k) (address k) (status_at ch k) h
      → Owned url_string lbs (lb k) (address k) (status_at ch k) ch.targets
  launch-Owned k k_in own =
      let kept =
        start-Kept url_string lbs ss (record { statuses = []; monitored = []; targets = h }) in
      let (s, there) = get_elem?_total ch.monitored k k_in in
      let configured = (start_iff url_string lbs s ss h).0 (get_elem?-In ch.monitored k s there) in
      let healthy : (status_at ch k).is_healthy ≡ true =
        ap (λ o. (status_or o).is_healthy) there ∙ IsConfigured-is_healthy ss s configured in
      record {
        known = own.known;
        up = own.up;
        sync = record {
          found = kept.same (status_at ch k).target_url (targets (lb k)) ∙ own.found;
          agrees = kept.well (address k) own.well ∙ sym healthy;
        };
      }

  -- From `Start` over any services, and whatever the goroutines that it launches do in whatever
  -- order, with ticks and `Stop` between: the health that the proxy has of each monitored target is
  -- the one that the results of its own checks alone determine by the thresholds. It asks that each
  -- status has a target of its own, the first with its URL in the service's round-robin or random
  -- balancer, and that these are healthy before.
  pub launch-is_healthy :
      (t : System) (checked : List (ℕ × Network))
      → ((j k : ℕ) → j < n → k < n → j ≢ k → address j ≢ address k)
      → ((k : ℕ) → k < n → Assigned url_string lbs (lb k) (address k) (status_at ch k) h)
      → Run url_string lbs n (launch ch) checked t
      → (k : ℕ) → k < n
      → is_healthy t.targets (address k)
        ≡ (status_after (status_at ch k) (networks_of k checked)).is_healthy
  launch-is_healthy t checked apart own run =
      Run-is_healthy url_string lbs n lb address apart (launch ch) t checked run
        (λ k k_in. launch-Owned k k_in (own k k_in))
