-- ===== src/LoadBalancer/Create/Correct.antt =====
-- The balancer that `NewLoadBalancer` returns.
use corridor.Prelude.{
  ℕ, ◌<◌, ◌≡◌, ◌≢◌, refl, sym, ◌∙◌, subst, List, [], ◌∷◌, Option, ok, In, arith, Bool-cases,
  ok-injective, inl, inr,
}
use corridor.Prelude.Text.{Text, text, ◌==◌}
use corridor.Config.{ServiceConfig, TargetConfig}
use corridor.LoadBalancer.Target.{Url, Store}
use corridor.LoadBalancer.Next.{
  LoadBalancer, round_robin, random, weighted_random, least_connections, targets, get_service_name,
}
use corridor.LoadBalancer.Weighted.{HasWeight}
use corridor.LoadBalancer.Create.{
  default_weights, select_balancer, parse_targets, finish, parsed_or_missing, new_load_balancer,
  targets_of,
}
use corridor.LoadBalancer.Create.Fresh.{IsFresh, Keeps, Parsed, parse_targets-Parsed}
use corridor.LoadBalancer.Create.Weights.{
  Weighed, default_weights-Weighed, default_weights-HasWeight, default_weights_others,
}

-- Only the weighted balancer needs weights; the round robin starts at its first target.
abbrev pub IsPrepared : Store → LoadBalancer → Type 0
IsPrepared h (round_robin name ts i) = i ≡ 0
IsPrepared h (random name ts) = Unit {0}
IsPrepared h (weighted_random name ts) = (a : ℕ) → In a ts → HasWeight h a
IsPrepared h (least_connections name ts) = Unit {0}

pub record IsNew (name : Text) (h : Store) (out : LoadBalancer × Store) : Type 0 where
  pub named : get_service_name out.0 ≡ name
  pub nonempty : targets out.0 ≢ []
  pub fresh : (a : ℕ) → In a (targets out.0) → IsFresh h out.1 a
  pub keeps : Keeps h out.1
  pub prepared : IsPrepared out.1 out.0

weighted-IsNew :
    (name : Text) (t : ℕ) (ts : List ℕ) (h k : Store)
    → Parsed h (t ∷ ts, k)
    → IsNew name h (weighted_random name (t ∷ ts), default_weights (t ∷ ts) k)
weighted-IsNew name t ts h k p = record {
  named = refl;
  nonempty = λ e. cc;
  fresh = λ a m.
      let f = p.fresh a m in
      record {
        since = f.since;
        made = subst (λ n. a < n) (sym w.next) f.made;
        healthy = w.healthy a ∙ f.healthy;
        idle = w.idle a ∙ f.idle;
      };
  keeps = λ b lt.
      default_weights_others (t ∷ ts) k b (λ m. let f = p.fresh b m in omega (arith, f.since))
      ∙ p.keeps b lt;
  prepared = default_weights-HasWeight (t ∷ ts) k;
}
  where
    w : Weighed k (default_weights (t ∷ ts) k)
    w = default_weights-Weighed (t ∷ ts) k

select_balancer-IsNew :
    (name strategy : Text) (t : ℕ) (ts : List ℕ) (h k : Store)
    → Parsed h (t ∷ ts, k)
    → IsNew name h (select_balancer name strategy (t ∷ ts) k)
unfolding select_balancer
select_balancer-IsNew name strategy t ts h k p =
    elim (Bool-cases (strategy == text "round-robin")) [
      | inl e ↦ rw e (plain (round_robin name (t ∷ ts) 0) refl refl refl)
      | inr rr ↦ elim (Bool-cases (strategy == text "random")) [
        | inl e ↦ rw (rr, e) (plain (random name (t ∷ ts)) refl refl tt)
        | inr rnd ↦ elim (Bool-cases (strategy == text "weighted")) [
          | inl e ↦ rw (rr, rnd, e) (weighted-IsNew name t ts h k p)
          | inr wgt ↦ elim (Bool-cases (strategy == text "least-connections")) [
            | inl e ↦ rw (rr, rnd, wgt, e) (plain (least_connections name (t ∷ ts)) refl refl tt)
            | inr lc ↦ rw (rr, rnd, wgt, lc) (plain (round_robin name (t ∷ ts) 0) refl refl refl)
          ]
        ]
      ]
    ]
  where
    plain :
        (lb : LoadBalancer)
        → get_service_name lb ≡ name
        → targets lb ≡ t ∷ ts
        → IsPrepared k lb
        → IsNew name h (lb, k)
    plain lb named same prepared = record {
      named = named;
      nonempty = λ e. cc;
      fresh = λ a m. p.fresh a (subst (In a) same m);
      keeps = p.keeps;
      prepared = prepared;
    }

finish-IsNew :
    (s : ServiceConfig) (h : Store) (parsed : List ℕ × Store) (out : LoadBalancer × Store)
    → Parsed h parsed
    → finish s parsed ≡ ok out
    → IsNew s.name h out
finish-IsNew s h ([], k) out p e = cc
finish-IsNew s h (t ∷ ts, k) out p e =
    subst (IsNew s.name h) (ok-injective e) (select_balancer-IsNew s.name _ t ts h k p)

missing-IsNew :
    (url_parse : Text → Option Url) (s : ServiceConfig) (cfgs : List TargetConfig) (h : Store)
    (out : LoadBalancer × Store)
    → parsed_or_missing url_parse s cfgs h ≡ ok out
    → IsNew s.name h out
missing-IsNew url_parse s [] h out e = cc
missing-IsNew url_parse s (t ∷ cfgs) h out e =
    finish-IsNew s h (parse_targets url_parse (t ∷ cfgs) h) out
      (parse_targets-Parsed url_parse (t ∷ cfgs) h) e

-- Whatever URLs parse, a balancer that `NewLoadBalancer` returns has the service's name and at
-- least one target; its targets are new objects, healthy and without connections, and no older
-- object is changed; a weighted balancer's targets have positive weights and a round robin starts
-- at its first target.
pub new_load_balancer-IsNew :
    (url_parse : Text → Option Url) (s : ServiceConfig) (h : Store) (out : LoadBalancer × Store)
    → new_load_balancer url_parse s h ≡ ok out
    → IsNew s.name h out
unfolding new_load_balancer
new_load_balancer-IsNew url_parse s h out e =
    missing-IsNew url_parse s (targets_of s.load_balancing) h out e
