-- ===== src/Proxy/Health.antt =====
-- What `UpdateTargetHealth` does to the targets of a service.
use corridor.Prelude.{
  ℕ, ◌≡◌, refl, ◌∙◌, ap, inl, inr, List, [], ◌∷◌, Option, none, some, Bool, arith, Bool-cases,
  if◌then◌else◌, eqb,
}
use corridor.Prelude.Text.{Text, ◌==◌}
use corridor.Prelude.Dict.{lookup}
use corridor.LoadBalancer.Target.{Url, Store, set_health, is_healthy, is_healthy-set_health}
use corridor.LoadBalancer.Next.{
  LoadBalancer, round_robin, random, weighted_random, least_connections, targets,
}
use corridor.Proxy.{Balancers, update_first, update_balancer, update_found, update_target_health}

-- The address of the first target with the URL.
unfoldable pub first_with : (Url → Text) → Text → Store → List ℕ → Option ℕ
first_with url_string u h [] = none
first_with url_string u h (a ∷ ts) =
    let rest = first_with url_string u h ts in
    if url_string (h.cell a).url == u then some a else rest

abbrev pub set_first : Bool → Option ℕ → Store → Store
set_first healthy none h = h
set_first healthy (some a) h = set_health healthy a h

pub update_first-first_with :
    (url_string : Url → Text) (u : Text) (healthy : Bool) (ts : List ℕ) (h : Store)
    → update_first url_string u healthy ts h ≡ set_first healthy (first_with url_string u h ts) h
unfolding update_first first_with
update_first-first_with url_string u healthy [] h = refl
update_first-first_with url_string u healthy (a ∷ ts) h =
    elim (Bool-cases (url_string (h.cell a).url == u)) [
      | inl here ↦ rw here refl
      | inr there ↦ rw there (update_first-first_with url_string u healthy ts h)
    ]

-- Whether the balancer's health can be updated at all.
abbrev pub IsUpdatable : LoadBalancer → Type 0
IsUpdatable (round_robin name ts i) = Unit {0}
IsUpdatable (random name ts) = Unit {0}
IsUpdatable (weighted_random name ts) = ⊥
IsUpdatable (least_connections name ts) = ⊥

update_balancer_updatable :
    (url_string : Url → Text) (u : Text) (healthy : Bool) (lb : LoadBalancer) (h : Store)
    → IsUpdatable lb
    → update_balancer url_string u healthy lb h
      ≡ set_first healthy (first_with url_string u h (targets lb)) h
unfolding update_balancer
update_balancer_updatable url_string u healthy (round_robin name ts i) h up =
    update_first-first_with url_string u healthy ts h
update_balancer_updatable url_string u healthy (random name ts) h up =
    update_first-first_with url_string u healthy ts h
update_balancer_updatable url_string u healthy (weighted_random name ts) h up = absurd up
update_balancer_updatable url_string u healthy (least_connections name ts) h up = absurd up

-- For a service with a round-robin or a random balancer an update gives the new health to the
-- first of the balancer's targets with the URL, and leaves the health of every other target as it
-- was.
pub update_target_health-is_healthy :
    (url_string : Url → Text) (lbs : Balancers) (service u : Text) (healthy : Bool) (h : Store)
    (lb : LoadBalancer) (a b : ℕ)
    → lookup service lbs ≡ some lb
    → IsUpdatable lb
    → first_with url_string u h (targets lb) ≡ some a
    → is_healthy (update_target_health url_string lbs service u healthy h) b
      ≡ (if eqb a b then healthy else is_healthy h b)
unfolding update_target_health
update_target_health-is_healthy url_string lbs service u healthy h lb a b known up first =
    ap (λ k. is_healthy k b)
      (ap (λ o. update_found url_string u healthy o h) known
        ∙ update_balancer_updatable url_string u healthy lb h up
        ∙ ap (λ o. set_first healthy o h) first)
    ∙ is_healthy-set_health healthy a b h

update_balancer_ignored :
    (url_string : Url → Text) (u : Text) (healthy : Bool) (lb : LoadBalancer) (h : Store)
    → ¬ IsUpdatable lb
    → update_balancer url_string u healthy lb h ≡ h
unfolding update_balancer
update_balancer_ignored url_string u healthy (round_robin name ts i) h no_case = absurd (no_case tt)
update_balancer_ignored url_string u healthy (random name ts) h no_case = absurd (no_case tt)
update_balancer_ignored url_string u healthy (weighted_random name ts) h no_case = refl
update_balancer_ignored url_string u healthy (least_connections name ts) h no_case = refl

-- For a service with a weighted or a least-connections balancer an update changes nothing.
pub update_target_health_ignored :
    (url_string : Url → Text) (lbs : Balancers) (service u : Text) (healthy : Bool) (h : Store)
    (lb : LoadBalancer)
    → lookup service lbs ≡ some lb
    → ¬ IsUpdatable lb
    → update_target_health url_string lbs service u healthy h ≡ h
unfolding update_target_health
update_target_health_ignored url_string lbs service u healthy h lb known no_case =
    ap (λ o. update_found url_string u healthy o h) known
    ∙ update_balancer_ignored url_string u healthy lb h no_case

-- An update in the form of one write.
pub update_target_health_first :
    (url_string : Url → Text) (lbs : Balancers) (service u : Text) (healthy : Bool) (h : Store)
    (lb : LoadBalancer) (a : ℕ)
    → lookup service lbs ≡ some lb
    → IsUpdatable lb
    → first_with url_string u h (targets lb) ≡ some a
    → update_target_health url_string lbs service u healthy h ≡ set_health healthy a h
unfolding update_target_health
update_target_health_first url_string lbs service u healthy h lb a known up first =
    ap (λ o. update_found url_string u healthy o h) known
    ∙ update_balancer_updatable url_string u healthy lb h up
    ∙ ap (λ o. set_first healthy o h) first

set_health-url :
    (healthy : Bool) (a b : ℕ) (h : Store) → ((set_health healthy a h).cell b).url ≡ (h.cell b).url
unfolding set_health
set_health-url healthy a b h = ground arith

-- Health is no part of what an update looks for.
pub first_with-set_health :
    (url_string : Url → Text) (u : Text) (healthy : Bool) (a : ℕ) (h : Store) (ts : List ℕ)
    → first_with url_string u (set_health healthy a h) ts ≡ first_with url_string u h ts
unfolding first_with
first_with-set_health url_string u healthy a h [] = refl
first_with-set_health url_string u healthy a h (b ∷ ts) =
    rw (set_health-url healthy a b h, first_with-set_health url_string u healthy a h ts) refl
