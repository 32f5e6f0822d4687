-- ===== src/HealthChecker/Loop/Independent.antt =====
-- The goroutines share the proxy, and each target's health still follows its own checks.
use corridor.Prelude.{
  ℕ, ◌<◌, ◌≡◌, ◌≢◌, refl, sym, subst, ◌∙◌, ap, List, [], ◌∷◌, Option, none, some, Bool, true, false,
  arith, eqb, eqb_self, Bool-cases, inl, inr, ◌⊎◌, if◌then◌else◌,
}
use corridor.Prelude.Text.{Text}
use corridor.Prelude.Dict.{lookup}
use corridor.LoadBalancer.Target.{Url, Store, set_health, is_healthy, is_healthy-set_health}
use corridor.LoadBalancer.Next.{LoadBalancer, targets}
use corridor.Proxy.{Balancers}
use corridor.Proxy.Health.{IsUpdatable, update_target_health_first, first_with-set_health}
use corridor.HealthChecker.Hysteresis.{record_results}
use corridor.HealthChecker.Probe.{Network, perform_check}
use corridor.HealthChecker.Sync.{
  InSync, results, with_result, process_check_result-InSync, record_result-service_name,
  record_result-config, record_result-target_url,
}
use corridor.HealthChecker.{
  TargetStatus, record_result, same_health, reported, process_check_result, check_target,
}
use corridor.HealthChecker.Loop.{
  finished, Monitor, System, set_monitor, after_check, first, another, Silent, ticks, leaves, stops,
  Run, ends, checks, passes,
}

-- The networks that a goroutine's checks met.
unfoldable pub networks_of : ℕ → List (ℕ × Network) → List Network
networks_of k [] = []
networks_of k ((j, net) ∷ checked) =
    let rest = networks_of k checked in if eqb j k then net ∷ rest else rest

-- At most the health of the target at an address is set.
abbrev Touches : ℕ → Store → Store → Type 0
Touches a h h' = (h' ≡ h) ⊎ ((b : Bool) × (h' ≡ set_health b a h))

module _ (url_string : Url → Text) (lbs : Balancers) (lb : LoadBalancer) (a : ℕ)
    (up : IsUpdatable lb) where
  process_check_result-Touches :
      (r : Bool) (s : TargetStatus) (h : Store)
      → lookup s.service_name lbs ≡ some lb
      → InSync url_string lb a (s, h)
      → Touches a h (process_check_result url_string lbs r (s, h)).1
  unfolding process_check_result
  process_check_result-Touches r s h known sync =
      let s' = record_result r s in
      elim (Bool-cases (same_health s'.is_healthy s.is_healthy)) [
        | inl same ↦ rw same (inl refl)
        | inr changed ↦
            let told =
              update_target_health_first url_string lbs s.service_name s.target_url s'.is_healthy h
                lb a known up sync.found in
            rw changed (inr (s'.is_healthy, told))
      ]

  -- One check: the goroutine stays in step with the proxy, its status is what the result makes of
  -- it, and no other target is touched.
  record Checked (o : Option Bool) (s : TargetStatus) (h : Store) (out : TargetStatus × Store)
      : Type 0 where
    sync : InSync url_string lb a out
    touches : Touches a h out.1
    status : out.0 ≡ record_results (with_result o []) s

  reported-Checked :
      (o : Option Bool) (s : TargetStatus) (h : Store)
      → lookup s.service_name lbs ≡ some lb
      → InSync url_string lb a (s, h)
      → Checked o s h (reported url_string lbs o (s, h))
  unfolding record_results process_check_result
  reported-Checked none s h known sync = record { sync = sync; touches = inl refl; status = refl }
  reported-Checked (some r) s h known sync = record {
    sync = process_check_result-InSync url_string lbs lb a up r s h known sync;
    touches = process_check_result-Touches r s h known sync;
    status = refl;
  }

-- What a check leaves of another target.
other-InSync :
    (url_string : Url → Text) (lb : LoadBalancer) (a b : ℕ) (s : TargetStatus) (h h' : Store)
    → b ≢ a
    → Touches b h h'
    → InSync url_string lb a (s, h)
    → InSync url_string lb a (s, h')
other-InSync url_string lb a b s h h' apart (inl same) sync = rw same sync
other-InSync url_string lb a b s h h' apart (inr (v, told)) sync = rw told (record {
  found = first_with-set_health url_string s.target_url v b h (targets lb) ∙ sync.found;
  agrees =
      is_healthy-set_health v b a h ∙ (let e : eqb b a ≡ false = ground arith in rw e sync.agrees);
})

with_result-record_results :
    (o : Option Bool) (rs : List Bool) (s : TargetStatus)
    → record_results (with_result o rs) s ≡ record_results rs (record_results (with_result o []) s)
unfolding record_results
with_result-record_results none rs s = refl
with_result-record_results (some r) rs s = refl

-- What a check leaves of a status: its URL, its service and its configuration.
kept :
    (o : Option Bool) (s : TargetStatus)
    → ((record_results (with_result o []) s).target_url ≡ s.target_url)
      × ((record_results (with_result o []) s).service_name ≡ s.service_name)
      × ((record_results (with_result o []) s).config ≡ s.config)
unfolding record_results
kept none s = (refl, refl, refl)
kept (some r) s =
    (record_result-target_url r s, record_result-service_name r s, record_result-config r s)

-- The health that a status has after the checks that a goroutine made.
abbrev pub status_after : TargetStatus → List Network → TargetStatus
status_after s nets = record_results (results s.target_url s.config nets) s

status_after-cons :
    (net : Network) (nets : List Network) (s : TargetStatus)
    → status_after
        (record_results (with_result (perform_check net s.target_url s.config) []) s)
        nets
      ≡ status_after s (net ∷ nets)
status_after-cons net nets s =
    let o = perform_check net s.target_url s.config in
    let s' = record_results (with_result o []) s in
    let (same_url, same_name, same_config) = kept o s in
    ap (λ u. record_results (results u s'.config nets) s') same_url
    ∙ ap (λ c. record_results (results s.target_url c nets) s') same_config
    ∙ sym (with_result-record_results o (results s.target_url s.config nets) s)

-- A goroutine of a service with a round-robin or a random balancer, for the first of its targets
-- with the URL of the status, which the proxy sees as the status says.
pub record Owned (url_string : Url → Text) (lbs : Balancers) (lb : LoadBalancer) (a : ℕ)
    (s : TargetStatus) (h : Store) : Type 0 where
  pub known : lookup s.service_name lbs ≡ some lb
  pub up : IsUpdatable lb
  pub sync : InSync url_string lb a (s, h)

module _ (url_string : Url → Text) (lbs : Balancers) (n : ℕ) (lb : ℕ → LoadBalancer)
    (address : ℕ → ℕ) (apart : (j k : ℕ) → j < n → k < n → j ≢ k → address j ≢ address k) where
  abbrev OwnedAt : ℕ → System → Type 0
  OwnedAt k s = Owned url_string lbs (lb k) (address k) (s.monitors k).status s.targets

  -- After a check the goroutine that made it is as its own results say.
  after_check-own :
      (k : ℕ) (net : Network) (b : Bool) (s : System)
      → OwnedAt k s
      → OwnedAt k (after_check url_string lbs net b k s)
        × (((after_check url_string lbs net b k s).monitors k).status
            ≡ status_after (s.monitors k).status (net ∷ []))
  unfolding check_target
  after_check-own k net b s own =
      let st = (s.monitors k).status in
      let o = perform_check net st.target_url st.config in
      let done =
        reported-Checked url_string lbs (lb k) (address k) own.up o st s.targets own.known
          own.sync in
      let (same_url, same_name, same_config) = kept o st in
      rw (eqb_self k) (
        record {
          known =
              ap (λ x. lookup x.service_name lbs) done.status
              ∙ ap (λ x. lookup x lbs) same_name
              ∙ own.known;
          up = own.up;
          sync = done.sync;
        },
        done.status,
      )

  -- And the others are as they were.
  after_check-other :
      (j k : ℕ) (net : Network) (b : Bool) (s : System)
      → j < n
      → k < n
      → j ≢ k
      → OwnedAt j s
      → OwnedAt k s
      → OwnedAt k (after_check url_string lbs net b j s)
        × (((after_check url_string lbs net b j s).monitors k).status ≡ (s.monitors k).status)
  unfolding check_target
  after_check-other j k net b s j_in k_in differ mine own =
      let st = (s.monitors j).status in
      let o = perform_check net st.target_url st.config in
      let done =
        reported-Checked url_string lbs (lb j) (address j) mine.up o st s.targets mine.known
          mine.sync in
      let skipped : eqb k j ≡ false = ground arith in
      rw skipped (
        record {
          known = own.known;
          up = own.up;
          sync =
              other-InSync url_string (lb k) (address k) (address j) (s.monitors k).status s.targets
                (reported url_string lbs o (st, s.targets)).1 (apart j k j_in k_in differ)
                done.touches own.sync;
        },
        refl,
      )

  abbrev Follows : ℕ → System → List (ℕ × Network) → System → Type 0
  Follows k s checked t =
      OwnedAt k t
      × ((t.monitors k).status ≡ status_after (s.monitors k).status (networks_of k checked))

  abbrev AllOwned : System → Type 0
  AllOwned s = (k : ℕ) → k < n → OwnedAt k s

  -- The statuses after a check, of the goroutine `k`.
  after_check-Follows :
      (j k : ℕ) (net : Network) (b : Bool) (s : System)
      → j < n
      → k < n
      → AllOwned s
      → Follows k s ((j, net) ∷ []) (after_check url_string lbs net b j s)
  unfolding networks_of record_results
  after_check-Follows j k net b s j_in k_in all = elim (Bool-cases (eqb j k)) [
    | inl same ↦
        let one : j ≡ k = ground arith in
        rw same (
          subst
            (λ i.
              OwnedAt k (after_check url_string lbs net b i s)
              × (((after_check url_string lbs net b i s).monitors k).status
                  ≡ status_after (s.monitors k).status (net ∷ [])))
            (sym one) (after_check-own k net b s (all k k_in)))
    | inr differ ↦
        rw differ
          (after_check-other j k net b s j_in k_in (λ e. ground arith) (all j j_in) (all k k_in))
  ]

  networks_of_join :
      (j k : ℕ) (net : Network) (rest : List (ℕ × Network)) (st : TargetStatus)
      → status_after (status_after st (networks_of k ((j, net) ∷ []))) (networks_of k rest)
        ≡ status_after st (networks_of k ((j, net) ∷ rest))
  unfolding networks_of record_results
  networks_of_join j k net rest st = elim (Bool-cases (eqb j k)) [
    | inl same ↦ rw same (status_after-cons net (networks_of k rest) st)
    | inr differ ↦ rw differ refl
  ]

  status_kept :
      (j k : ℕ) (m : Monitor) (s : System)
      → m.status ≡ (s.monitors j).status
      → ((set_monitor j m s).monitors k).status ≡ (s.monitors k).status
  status_kept j k m s same = elim (Bool-cases (eqb k j)) [
    | inl own ↦
        let one : j ≡ k = ground arith in rw own (same ∙ ap (λ i. (s.monitors i).status) one)
    | inr other ↦ rw other refl
  ]

  -- A step without a check changes no status and no target.
  Silent-kept :
      (k : ℕ) (s t : System)
      → Silent url_string lbs n s t
      → ((t.monitors k).status ≡ (s.monitors k).status) × (t.targets ≡ s.targets)
  Silent-kept k s t (ticks j _ j_in) =
      (status_kept j k (record (s.monitors j) { ticked = true }) s refl, refl)
  Silent-kept k s t (leaves j _ j_in waits off) =
      (status_kept j k (record (s.monitors j) { phase = finished }) s refl, refl)
  Silent-kept k s t (stops _ on) = (refl, refl)

  Silent-OwnedAt : (k : ℕ) (s t : System) → Silent url_string lbs n s t → OwnedAt k s → OwnedAt k t
  Silent-OwnedAt k s t step own =
      let (same, as_before) = Silent-kept k s t step in
      subst (λ st. Owned url_string lbs (lb k) (address k) st t.targets) (sym same)
        (subst (λ h. Owned url_string lbs (lb k) (address k) (s.monitors k).status h)
          (sym as_before) own)

  -- What holds after a check and the run that follows it.
  after_check-then :
      (j k : ℕ) (net : Network) (b : Bool) (s t : System) (rest : List (ℕ × Network))
      → j < n
      → k < n
      → AllOwned s
      → Follows k (after_check url_string lbs net b j s) rest t
      → Follows k s ((j, net) ∷ rest) t
  after_check-then j k net b s t rest j_in k_in all later =
      let (owned, now) = after_check-Follows j k net b s j_in k_in all in
      (
        later.0,
        later.1
            ∙ ap (λ st. status_after st (networks_of k rest)) now
            ∙ networks_of_join j k net rest (s.monitors k).status,
      )

  after_check-AllOwned :
      (j : ℕ) (net : Network) (b : Bool) (s : System)
      → j < n
      → AllOwned s
      → AllOwned (after_check url_string lbs net b j s)
  after_check-AllOwned j net b s j_in all k k_in = (after_check-Follows j k net b s j_in k_in all).0

  Run-Follows :
      (s t : System) (checked : List (ℕ × Network))
      → Run url_string lbs n s checked t
      → AllOwned s
      → (k : ℕ) → k < n
      → Follows k s checked t
  unfolding networks_of record_results
  Run-Follows s t checked (ends _) all k k_in = (all k k_in, refl)
  Run-Follows s t checked (checks j net _ mid _ rest (first _ _ _ j_in phase) run) all k k_in =
      let b = (s.monitors j).ticked in
      let on = after_check-AllOwned j net b s j_in all in
      after_check-then j k net b s t rest j_in k_in all (Run-Follows _ t rest run on k k_in)
  Run-Follows s t checked (checks j net _ mid _ rest (another _ _ _ j_in phase ticked) run) all k
        k_in =
      let on = after_check-AllOwned j net false s j_in all in
      after_check-then j k net false s t rest j_in k_in all (Run-Follows _ t rest run on k k_in)
  Run-Follows s t checked (passes _ mid _ _ step run) all k k_in =
      let (owned, same) =
        Run-Follows mid t checked run (λ i i_in. Silent-OwnedAt i s mid step (all i i_in)) k k_in in
      (
        owned,
        same ∙ ap (λ st. status_after st (networks_of k checked)) (Silent-kept k s mid step).0,
      )

  -- The goroutines of the health checker share the proxy's targets and come in any order, with ticks
  -- and `Stop` between. If each is for a target of its own, the first with its URL in a service
  -- with a round-robin or a random balancer, then after any run the health that the proxy has of
  -- each target is the one that the results of its own checks alone determine by the thresholds.
  pub Run-is_healthy :
      (s t : System) (checked : List (ℕ × Network))
      → Run url_string lbs n s checked t
      → ((k : ℕ) → k < n → Owned url_string lbs (lb k) (address k) (s.monitors k).status s.targets)
      → (k : ℕ) → k < n
      → is_healthy t.targets (address k)
        ≡ (status_after (s.monitors k).status (networks_of k checked)).is_healthy
  Run-is_healthy s t checked run all k k_in =
      let (owned, same) = Run-Follows s t checked run all k k_in in
      owned.sync.agrees ∙ ap (λ st. st.is_healthy) same
