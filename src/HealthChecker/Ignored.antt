-- ===== src/HealthChecker/Ignored.antt =====
-- The checks of a target whose balancer is a weighted or a least-connections one, the two that
-- `UpdateTargetHealth` has no case for.
use corridor.Prelude.{
  ℕ, ◌<◌, ◌≡◌, refl, sym, ◌∙◌, ap, subst, List, [], ◌∷◌, Option, none, some, Bool, true, false, In,
  Bool-cases, inl, inr, ok,
}
use corridor.Prelude.Int.{pos, ◌≤ℤ◌}
use corridor.Prelude.Text.{Text}
use corridor.Prelude.Dict.{lookup}
use corridor.Config.{HealthCheckConfig}
use corridor.LoadBalancer.Target.{Url, Store, is_healthy}
use corridor.LoadBalancer.Next.{
  LoadBalancer, round_robin, random, weighted_random, least_connections, targets, next,
}
use corridor.LoadBalancer.Available.{Draws, HasRoom, next-IsLive}
use corridor.Proxy.{Balancers}
use corridor.Proxy.Health.{IsUpdatable, update_target_health_ignored}
use corridor.HealthChecker.Hysteresis.{record_results, times, record_results_flip}
use corridor.HealthChecker.Probe.{Network, perform_check}
use corridor.HealthChecker.Sync.{
  with_result, results, record_result-target_url, record_result-config, record_result-service_name,
}
use corridor.HealthChecker.{
  TargetStatus, initial_status, record_result, same_health, reported, process_check_result,
  check_target, monitor_target, start_target,
}

HasRoom-drawing : (lb : LoadBalancer) → ¬ IsUpdatable lb → HasRoom lb
HasRoom-drawing (round_robin name ts i) no_case = absurd (no_case tt)
HasRoom-drawing (random name ts) no_case = absurd (no_case tt)
HasRoom-drawing (weighted_random name ts) no_case = tt
HasRoom-drawing (least_connections name ts) no_case = tt

module _ (url_string : Url → Text) (lbs : Balancers) (lb : LoadBalancer)
    (no_case : ¬ IsUpdatable lb) where
  process_check_result_ignored :
      (r : Bool) (s : TargetStatus) (h : Store)
      → lookup s.service_name lbs ≡ some lb
      → process_check_result url_string lbs r (s, h) ≡ (record_result r s, h)
  unfolding process_check_result
  process_check_result_ignored r s h known =
      let s' = record_result r s in
      elim (Bool-cases (same_health s'.is_healthy s.is_healthy)) [
        | inl same ↦ rw same refl
        | inr changed ↦
            rw
              (
                changed,
                update_target_health_ignored url_string lbs s.service_name s.target_url
                    s'.is_healthy h lb known no_case,
              )
              refl
      ]

  -- The status follows the results, and the proxy's targets stay as they were.
  abbrev AllIgnored : List Network → Type 0
  AllIgnored nets =
      (s : TargetStatus) (h : Store)
      → lookup s.service_name lbs ≡ some lb
      → monitor_target url_string lbs nets (s, h)
        ≡ (record_results (results s.target_url s.config nets) s, h)

  reported_ignored :
      (nets : List Network)
      → AllIgnored nets
      → (o : Option Bool) (s : TargetStatus) (h : Store) → lookup s.service_name lbs ≡ some lb
      → monitor_target url_string lbs nets (reported url_string lbs o (s, h))
        ≡ (record_results (with_result o (results s.target_url s.config nets)) s, h)
  unfolding record_results
  reported_ignored nets rest none s h known = rest s h known
  reported_ignored nets rest (some r) s h known =
      let s' = record_result r s in
      ap (monitor_target url_string lbs nets) (process_check_result_ignored r s h known)
      ∙ rest s' h (ap (λ n. lookup n lbs) (record_result-service_name r s) ∙ known)
      ∙ ap (λ u. (record_results (results u s'.config nets) s', h)) (record_result-target_url r s)
      ∙ ap (λ c. (record_results (results s.target_url c nets) s', h)) (record_result-config r s)

  monitor_target-AllIgnored : (nets : List Network) → AllIgnored nets
  unfolding monitor_target check_target record_results
  monitor_target-AllIgnored [] s h known = refl
  monitor_target-AllIgnored (net ∷ nets) s h known =
      reported_ignored nets (monitor_target-AllIgnored nets)
        (perform_check net s.target_url s.config) s h known

  started_ignored :
      (service u : Text) (hc : HealthCheckConfig) (nets : List Network) (h : Store)
      → lookup service lbs ≡ some lb
      → monitor_target url_string lbs nets (start_target url_string lbs service u hc h)
        ≡ (record_results (results u hc nets) (initial_status service u hc), h)
  unfolding start_target
  started_ignored service u hc nets h known =
      rw (update_target_health_ignored url_string lbs service u true h lb known no_case)
        (monitor_target-AllIgnored nets (initial_status service u hc) h known)

  -- The one live target of a balancer.
  next_only :
      (h : Store) (intn : ℕ → ℕ) (b : ℕ)
      → Draws intn
      → targets lb ≡ b ∷ []
      → is_healthy h b ≡ true
      → (next h intn lb).0 ≡ ok b
  next_only h intn b draws only well =
      let listed : In b (targets lb) = subst (In b) (sym only) (inl refl) in
      let (a, e, live) =
        next-IsLive h intn lb b draws (HasRoom-drawing lb no_case) (listed, well) in
      elim (subst (In a) only live.0) [ inl same ↦ e ∙ ap ok same | inr never ↦ elim never [ ] ]

  -- For a service whose weighted or least-connections balancer has one target, at first healthy:
  -- after the checker started on it and after as many failed checks in a row as its threshold, at
  -- least one, the checker's status of the target is unhealthy, and with draws in range the next
  -- pick of the balancer is still that target.
  pub monitor_target_ignored :
      (service u : Text) (hc : HealthCheckConfig) (nets : List Network) (n : ℕ) (h : Store)
      (intn : ℕ → ℕ) (b : ℕ)
      → lookup service lbs ≡ some lb
      → targets lb ≡ b ∷ []
      → is_healthy h b ≡ true
      → Draws intn
      → 0 < n
      → hc.unhealthy_threshold ≤ℤ pos n
      → results u hc nets ≡ times n false
      → ((monitor_target url_string lbs nets
            (start_target url_string lbs service u hc h)).0.is_healthy
          ≡ false)
        × ((next
              (monitor_target url_string lbs nets (start_target url_string lbs service u hc h)).1
              intn
              lb).0
            ≡ ok b)
  monitor_target_ignored service u hc nets n h intn b known only well draws some_check enough
        failed =
      let out = started_ignored service u hc nets h known in
      (
        ap (λ st. st.0.is_healthy) out
            ∙ ap (λ rs. (record_results rs (initial_status service u hc)).is_healthy) failed
            ∙ record_results_flip false n (initial_status service u hc) some_check enough,
        ap (λ st. (next st.1 intn lb).0) out ∙ next_only h intn b draws only well,
      )
