-- ===== src/HealthChecker/Sync.antt =====
-- The proxy's view of a target's health follows the checker's.
use corridor.Prelude.{
  ℕ, ◌≡◌, refl, sym, ◌∙◌, ap, List, [], ◌∷◌, Option, none, some, Bool, true, false, arith,
  Bool-cases, inl, inr,
}
use corridor.Prelude.Text.{Text}
use corridor.Prelude.Dict.{lookup}
use corridor.Config.{HealthCheckConfig}
use corridor.LoadBalancer.Target.{Url, Store, set_health, is_healthy, is_healthy-set_health}
use corridor.LoadBalancer.Next.{LoadBalancer, targets}
use corridor.Proxy.{Balancers}
use corridor.Proxy.Health.{
  first_with, IsUpdatable, update_target_health_first, first_with-set_health,
}
use corridor.HealthChecker.Hysteresis.{record_results}
use corridor.HealthChecker.Probe.{Network, perform_check}
use corridor.HealthChecker.{
  TargetStatus, initial_status, record_result, same_health, reported, process_check_result,
  check_target, monitor_target, start_target,
}

abbrev pub with_result : Option Bool → List Bool → List Bool
with_result none rs = rs
with_result (some r) rs = r ∷ rs

-- The results of a target's checks; a check that is given up has none.
abbrev pub results : Text → HealthCheckConfig → List Network → List Bool
results u hc [] = []
results u hc (net ∷ nets) = with_result (perform_check net u hc) (results u hc nets)

-- The status is one of the service's balancer, which can be updated, and `a` is the first of its
-- targets with the status's URL; the proxy has the health that the status has.
pub record InSync (url_string : Url → Text) (lb : LoadBalancer) (a : ℕ) (st : TargetStatus × Store)
    : Type 0 where
  pub found : first_with url_string st.0.target_url st.1 (targets lb) ≡ some a
  pub agrees : is_healthy st.1 a ≡ st.0.is_healthy

pub record_result-target_url :
    (r : Bool) (s : TargetStatus) → (record_result r s).target_url ≡ s.target_url
unfolding record_result
record_result-target_url true s = refl
record_result-target_url false s = refl

pub record_result-config : (r : Bool) (s : TargetStatus) → (record_result r s).config ≡ s.config
unfolding record_result
record_result-config true s = refl
record_result-config false s = refl

pub record_result-service_name :
    (r : Bool) (s : TargetStatus) → (record_result r s).service_name ≡ s.service_name
unfolding record_result
record_result-service_name true s = refl
record_result-service_name false s = refl

same_health_sound : (b c : Bool) → same_health b c ≡ true → b ≡ c
same_health_sound true c h = sym h
same_health_sound false true h = cc
same_health_sound false false h = refl

module _ (url_string : Url → Text) (lbs : Balancers) (lb : LoadBalancer) (a : ℕ)
    (up : IsUpdatable lb) where
  set_own : (b : Bool) (h : Store) → is_healthy (set_health b a h) a ≡ b
  set_own b h = is_healthy-set_health b a a h ∙ ground arith

  pub process_check_result-InSync :
      (r : Bool) (s : TargetStatus) (h : Store)
      → lookup s.service_name lbs ≡ some lb
      → InSync url_string lb a (s, h)
      → InSync url_string lb a (process_check_result url_string lbs r (s, h))
  unfolding process_check_result
  process_check_result-InSync r s h known sync =
      let s' = record_result r s in
      let same_url = record_result-target_url r s in
      let listed : first_with url_string s'.target_url h (targets lb) ≡ some a =
        ap (λ u. first_with url_string u h (targets lb)) same_url ∙ sync.found in
      elim (Bool-cases (same_health s'.is_healthy s.is_healthy)) [
        | inl same ↦ rw same (record {
          found = listed;
          agrees = sync.agrees ∙ sym (same_health_sound s'.is_healthy s.is_healthy same);
        })
        | inr changed ↦
            let told =
              update_target_health_first url_string lbs s.service_name s.target_url s'.is_healthy h
                lb a known up sync.found in
            rw (changed, told)
              (record {
                found =
                    first_with-set_health url_string s'.target_url s'.is_healthy a h (targets lb)
                    ∙ listed;
                agrees = set_own s'.is_healthy h;
              })
      ]

  -- What a run of checks promises of the status and the store after it.
  abbrev Follows : List Bool → TargetStatus → TargetStatus × Store → Type 0
  Follows rs s out = InSync url_string lb a out × (out.0 ≡ record_results rs s)

  abbrev AllFollow : List Network → Type 0
  AllFollow nets =
      (s : TargetStatus) (h : Store)
      → lookup s.service_name lbs ≡ some lb
      → InSync url_string lb a (s, h)
      → Follows (results s.target_url s.config nets) s (monitor_target url_string lbs nets (s, h))

  reported-Follows :
      (nets : List Network)
      → AllFollow nets
      → (o : Option Bool) (s : TargetStatus) (h : Store) → lookup s.service_name lbs ≡ some lb
      → InSync url_string lb a (s, h)
      → Follows
          (with_result o (results s.target_url s.config nets))
          s
          (monitor_target url_string lbs nets (reported url_string lbs o (s, h)))
  unfolding process_check_result record_results
  reported-Follows nets rest none s h known sync = rest s h known sync
  reported-Follows nets rest (some r) s h known sync =
      let (synced, same) =
        rest (record_result r s) _ (ap (λ n. lookup n lbs) (record_result-service_name r s) ∙ known)
          (process_check_result-InSync r s h known sync) in
      (
        synced,
        same
            ∙ ap
                (λ u.
                  record_results (results u (record_result r s).config nets) (record_result r s))
                (record_result-target_url r s)
            ∙ ap (λ c. record_results (results s.target_url c nets) (record_result r s))
                (record_result-config r s),
      )

  monitor_target-Follows : (nets : List Network) → AllFollow nets
  unfolding monitor_target check_target record_results
  monitor_target-Follows [] s h known sync = (sync, refl)
  monitor_target-Follows (net ∷ nets) s h known sync =
      reported-Follows nets (monitor_target-Follows nets) (perform_check net s.target_url s.config)
        s h known sync

  start_target-InSync :
      (service u : Text) (hc : HealthCheckConfig) (h : Store)
      → lookup service lbs ≡ some lb
      → first_with url_string u h (targets lb) ≡ some a
      → InSync url_string lb a (start_target url_string lbs service u hc h)
  unfolding start_target
  start_target-InSync service u hc h known found =
      rw (update_target_health_first url_string lbs service u true h lb a known up found) (record {
        found = first_with-set_health url_string u true a h (targets lb) ∙ found;
        agrees = set_own true h;
      })

  -- For a service with a round-robin or a random balancer, started on and then checked any number
  -- of times, the health that the balancer sees of the first of its targets with the checked URL
  -- is the one that the checks' results alone determine by the two thresholds.
  pub monitor_target-is_healthy :
      (service u : Text) (hc : HealthCheckConfig) (nets : List Network) (h : Store)
      → lookup service lbs ≡ some lb
      → first_with url_string u h (targets lb) ≡ some a
      → is_healthy
          (monitor_target url_string lbs nets (start_target url_string lbs service u hc h)).1
          a
        ≡ (record_results (results u hc nets) (initial_status service u hc)).is_healthy
  unfolding start_target
  monitor_target-is_healthy service u hc nets h known found =
      let out =
        monitor_target-Follows nets (initial_status service u hc) _ known
          (start_target-InSync service u hc h known found) in
      out.0.agrees ∙ ap (λ s. s.is_healthy) out.1
