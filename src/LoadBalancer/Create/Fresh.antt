-- ===== src/LoadBalancer/Create/Fresh.antt =====
-- What `NewLoadBalancer` allocates.
use corridor.Prelude.{
  ℕ, suc, ◌<◌, ◌≤◌, ◌≡◌, refl, sym, ◌∙◌, ap, subst, inl, inr, List, [], ◌∷◌, Option, In, true,
  arith, Option-cases,
}
use corridor.Prelude.Int.{pos}
use corridor.Prelude.Text.{Text}
use corridor.Config.{TargetConfig}
use corridor.LoadBalancer.Target.{Url, UpstreamTarget, Store, allocate, is_healthy}
use corridor.LoadBalancer.Create.{new_target, parse_targets}

-- An object made by this call, idle and assumed healthy.
pub record IsFresh (h h' : Store) (a : ℕ) : Type 0 where
  pub since : h.next ≤ a
  pub made : a < h'.next
  pub healthy : is_healthy h' a ≡ true
  pub idle : (h'.cell a).active_connections ≡ pos 0

-- No object from before the call is changed.
abbrev pub Keeps : Store → Store → Type 0
Keeps h h' = (b : ℕ) → b < h.next → h'.cell b ≡ h.cell b

pub record Parsed (h : Store) (out : List ℕ × Store) : Type 0 where
  pub fresh : (a : ℕ) → In a out.0 → IsFresh h out.1 a
  pub keeps : Keeps h out.1
  pub grows : h.next ≤ out.1.next

abbrev IsIdle : UpstreamTarget → Type 0
IsIdle t = (t.healthy ≡ true) × (t.active_connections ≡ pos 0)

allocated : (t : UpstreamTarget) (h : Store) → (allocate t h).1.cell h.next ≡ t
unfolding allocate
allocated t h = ground arith

allocate-Keeps : (t : UpstreamTarget) (h : Store) → Keeps h (allocate t h).1
unfolding allocate
allocate-Keeps t h b lt = ground arith

Parsed-cons :
    (t : UpstreamTarget) (h : Store) (out : List ℕ × Store)
    → IsIdle t
    → Parsed (allocate t h).1 out
    → Parsed h (h.next ∷ out.0, out.1)
unfolding allocate
Parsed-cons t h out idle p = record { fresh = fresh; keeps = keeps; grows = older }
  where
    grown : suc h.next ≤ out.1.next
    grown = p.grows

    older : h.next ≤ out.1.next
    older = omega (arith, grown)

    same : out.1.cell h.next ≡ t
    same = p.keeps h.next (omega arith) ∙ allocated t h

    fresh : (a : ℕ) → In a (h.next ∷ out.0) → IsFresh h out.1 a
    fresh a (inl e) = subst (IsFresh h out.1) (sym e) (record {
      since = omega arith;
      made = grown;
      healthy = ap (λ u. u.healthy) same ∙ idle.0;
      idle = ap (λ u. u.active_connections) same ∙ idle.1;
    })
    fresh a (inr m) =
        let f = p.fresh a m in
        let late : suc h.next ≤ a = f.since in
        record { since = omega arith; made = f.made; healthy = f.healthy; idle = f.idle }

    keeps : Keeps h out.1
    keeps b lt = p.keeps b (omega arith) ∙ allocate-Keeps t h b lt

pub parse_targets-Parsed :
    (url_parse : Text → Option Url) (cfgs : List TargetConfig) (h : Store)
    → Parsed h (parse_targets url_parse cfgs h)
unfolding parse_targets
parse_targets-Parsed url_parse [] h = record {
  fresh = λ a m. absurd m;
  keeps = λ b lt. refl;
  grows = omega arith;
}
parse_targets-Parsed url_parse (t ∷ cfgs) h = elim (Option-cases (url_parse t.url)) [
  | inl bad ↦ rw (bad, parse_targets) (parse_targets-Parsed url_parse cfgs h)
  | inr (url, good) ↦
      rw (good, parse_targets)
        (Parsed-cons (new_target url t.weight) h _ (refl, refl)
          (parse_targets-Parsed url_parse cfgs (allocate (new_target url t.weight) h).1))
]
