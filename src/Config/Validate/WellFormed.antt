-- ===== src/Config/Validate/WellFormed.antt =====
-- What a configuration that passed `validateAndSetDefaults` guarantees to the rest of the gateway.
use corridor.Prelude.{
  ℕ, ◌≡◌, refl, ap, ◌≢◌, ◌⊎◌, inl, inr, List, [], ◌∷◌, true, false, not, Option, none, some, map,
  ok, arith, Bool-cases, ◌&&◌, ◌∙◌, sym, subst, ok-injective, >>=-eq-ok, refuse-eq-ok,
}
use corridor.Prelude.Int.{pos, ◌≤ℤ◌}
use corridor.Prelude.Text.{Text, ◌==◌, eq_iff}
use corridor.Config.{ServiceConfig, LoadBalancingConfig, HealthCheckConfig}
use corridor.Config.Validate.{
  is_empty, is_nil, seen, is_valid_strategy, populate, check_health, check_health?,
  default_strategy, check_load_balancing, check_copy, check_service, lacks_targets,
}

-- Positive periods and thresholds, and a probe to call.
pub record IsProbing (hc : HealthCheckConfig) : Type 0 where
  pub interval : pos 1 ≤ℤ hc.interval
  pub timeout : pos 1 ≤ℤ hc.timeout
  pub unhealthy : pos 1 ≤ℤ hc.unhealthy_threshold
  pub healthy : pos 1 ≤ℤ hc.healthy_threshold
  pub probe : (hc.ready ≢ []) ⊎ (hc.live ≢ [])

abbrev pub HasProbe : Option HealthCheckConfig → Type 0
HasProbe none = Unit
HasProbe (some hc) = IsProbing hc

-- A target to send to, and a strategy that the factory knows or replaces.
pub record IsUsable (lb : LoadBalancingConfig) : Type 0 where
  pub target : is_nil lb.targets ≡ false
  pub strategy : (is_valid_strategy lb.strategy ≡ true) ⊎ (lb.strategy ≡ [])
  pub health : HasProbe lb.health_checks

abbrev pub IsBalanced : Option LoadBalancingConfig → Type 0
IsBalanced none = ⊥
IsBalanced (some lb) = IsUsable lb

check_health-IsProbing :
    (name : Text) (hc hc' : HealthCheckConfig) → check_health name hc ≡ ok hc' → IsProbing hc'
unfolding check_health
check_health-IsProbing name hc hc' h = ground (arith, eq_iff hc.ready [], eq_iff hc.live [])

check_health?-HasProbe :
    (name : Text) (o o' : Option HealthCheckConfig) → check_health? name o ≡ ok o' → HasProbe o'
check_health?-HasProbe name none o' h = subst HasProbe (ok-injective h) tt
check_health?-HasProbe name (some hc) o' h =
    let (hc', checked, e) = >>=-eq-ok (check_health name hc) _ h in
    subst HasProbe (ok-injective e) (check_health-IsProbing name hc hc' checked)

default_strategy_keeps :
    (name : Text) (lb lb' : LoadBalancingConfig)
    → default_strategy name lb ≡ ok lb'
    → (lb'.targets ≡ lb.targets) × (lb'.health_checks ≡ lb.health_checks)
unfolding default_strategy
default_strategy_keeps name lb lb' h = ground arith

-- A load balancing that passed its checks has a target, a known strategy and a sound health check.
pub check_load_balancing-IsUsable :
    (name : Text) (lb lb' : LoadBalancingConfig)
    → check_load_balancing name lb ≡ ok lb'
    → IsUsable lb' × (is_valid_strategy lb'.strategy ≡ true)
unfolding check_load_balancing
check_load_balancing-IsUsable name lb lb' h =
    let (some_target, h1) = refuse-eq-ok (is_nil lb.targets) _ _ h in
    let (named, strategy_ok, h2) = >>=-eq-ok (default_strategy name lb) _ h1 in
    let (valid, h3) = refuse-eq-ok (not (is_valid_strategy named.strategy)) _ _ h2 in
    let (hc, checked, h4) = >>=-eq-ok (check_health? name named.health_checks) _ h3 in
    let same = ok-injective h4 in
    let known : is_valid_strategy named.strategy ≡ true = ground arith in
    let probes = check_health?-HasProbe name named.health_checks hc checked in
    let kept = default_strategy_keeps name lb named strategy_ok in
    let usable : IsUsable (record named { health_checks = hc }) = record {
      target = rw kept.0 some_target;
      strategy = inl known;
      health = probes;
    } in
    (subst IsUsable same usable, subst (λ l. is_valid_strategy l.strategy ≡ true) same known)

is_nil-map {ℓ κ} :
    {A : Type ℓ} {B : Type κ} (f : A → B) (xs : List A) → is_nil (map f xs) ≡ is_nil xs
is_nil-map f [] = refl
is_nil-map f (x ∷ xs) = refl

-- A service that had no load balancing gets one that is usable as it stands.
populate_fresh :
    (s : ServiceConfig)
    → s.load_balancing ≡ none
    → (is_nil s.upstream_urls && is_empty s.upstream_url && lacks_targets s.load_balancing) ≡ false
    → IsBalanced (populate s).load_balancing
unfolding populate ◌==◌
populate_fresh s e h = elim (Bool-cases (is_empty s.upstream_url)) [
  | inl blank ↦ elim (Bool-cases (is_nil s.upstream_urls)) [
    | inl nothing ↦ absurd (cc)
    | inr several ↦
        rw (e, blank, several)
          (record {
            target = is_nil-map _ s.upstream_urls ∙ several;
            strategy = inl refl;
            health = tt;
          })
  ]
  | inr single ↦ rw (e, single) (record { target = refl; strategy = inr refl; health = tt })
]

populate_some : (s : ServiceConfig) → s.load_balancing ≢ none → (populate s).load_balancing ≢ none
unfolding populate
populate_some s h = ground arith

check_copy-IsBalanced :
    (name : Text) (was now o : Option LoadBalancingConfig)
    → (was ≡ none → IsBalanced now)
    → (was ≢ none → now ≢ none)
    → check_copy name was now ≡ ok o
    → IsBalanced o
unfolding check_copy
check_copy-IsBalanced name none now o fresh kept h = subst IsBalanced (ok-injective h) (fresh refl)
check_copy-IsBalanced name (some _) none o fresh kept h = absurd (kept (λ e. cc) refl)
check_copy-IsBalanced name (some _) (some lb) o fresh kept h =
    let (lb', checked, e) = >>=-eq-ok (check_load_balancing name lb) _ h in
    subst IsBalanced (ok-injective e) (check_load_balancing-IsUsable name lb lb' checked).0

pub record ServiceChecked (names : List Text) (s s' : ServiceConfig) : Type 0 where
  pub named : s.name ≢ []
  pub fresh : seen names s.name ≡ false
  pub name : s'.name ≡ s.name
  pub balanced : IsBalanced s'.load_balancing

populate-name : (s : ServiceConfig) → (populate s).name ≡ s.name
unfolding populate
populate-name s = ground arith

pub check_service-ServiceChecked :
    (i : ℕ) (names : List Text) (s s' : ServiceConfig)
    → check_service i names s ≡ ok s'
    → ServiceChecked names s s'
unfolding check_service
check_service-ServiceChecked i names s s' h =
    let (named, h1) = refuse-eq-ok (is_empty s.name) _ _ h in
    let (fresh, h2) = refuse-eq-ok (seen names s.name) _ _ h1 in
    let (reachable, h3) = refuse-eq-ok _ _ _ h2 in
    let (single, h4) = refuse-eq-ok _ _ _ h3 in
    let (lb, checked, e) = >>=-eq-ok (check_copy s.name s.load_balancing _) _ h4 in
    let balanced =
      check_copy-IsBalanced s.name s.load_balancing _ lb (λ n. populate_fresh s n reachable)
        (populate_some s) checked in
    record {
      named = ground (arith, eq_iff s.name []);
      fresh = fresh;
      name = ap (λ t. t.name) (sym (ok-injective e)) ∙ populate-name s;
      balanced = subst (λ t. IsBalanced t.load_balancing) (ok-injective e) balanced;
    }
