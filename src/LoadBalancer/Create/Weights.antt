-- ===== src/LoadBalancer/Create/Weights.antt =====
-- The default weights of `NewLoadBalancer`.
use corridor.Prelude.{
  ℕ, zero, suc, ◌≡◌, ◌≢◌, refl, sym, ◌∙◌, subst, inl, inr, List, [], ◌∷◌, In, false, arith,
  Bool-cases, eqb,
}
use corridor.Prelude.Int.{ℤ, pos, negsuc, leb_ℤ}
use corridor.LoadBalancer.Target.{Store, modify, is_healthy}
use corridor.LoadBalancer.Next.{weight_of}
use corridor.LoadBalancer.Weighted.{HasWeight}
use corridor.LoadBalancer.Create.{default_weight, default_weights}

-- Between two stores only weights differ, and a positive weight stays positive.
pub record Weighed (h h' : Store) : Type 0 where
  pub next : h'.next ≡ h.next
  pub healthy : (b : ℕ) → is_healthy h' b ≡ is_healthy h b
  pub idle : (b : ℕ) → (h'.cell b).active_connections ≡ (h.cell b).active_connections
  pub stays : (b : ℕ) → HasWeight h b → HasWeight h' b

Weighed-trans : (h k l : Store) → Weighed h k → Weighed k l → Weighed h l
Weighed-trans h k l v w = record {
  next = w.next ∙ v.next;
  healthy = λ b. w.healthy b ∙ v.healthy b;
  idle = λ b. w.idle b ∙ v.idle b;
  stays = λ b p. w.stays b (v.stays b p);
}

positive : (z : ℤ) → leb_ℤ z (pos 0) ≡ false → (w : ℕ) × (z ≡ pos (suc w))
positive (pos zero) h = ground arith
positive (pos (suc n)) h = (n, refl)
positive (negsuc n) h = ground arith

default_weight-stays : (a b : ℕ) (h : Store) → HasWeight h b → HasWeight (default_weight a h) b
unfolding default_weight modify
default_weight-stays a b h (w, e) = elim (Bool-cases (leb_ℤ (weight_of h a) (pos 0))) [
  | inl none_given ↦ elim (Bool-cases (eqb a b)) [
    | inl same ↦ (0, ground arith)
    | inr other ↦ (w, ground arith)
  ]
  | inr given ↦ (w, ground arith)
]

default_weight-Weighed : (a : ℕ) (h : Store) → Weighed h (default_weight a h)
unfolding default_weight modify
default_weight-Weighed a h = record {
  next = ground arith;
  healthy = λ b. ground arith;
  idle = λ b. ground arith;
  stays = λ b p. default_weight-stays a b h p;
}

default_weight-HasWeight : (a : ℕ) (h : Store) → HasWeight (default_weight a h) a
unfolding default_weight modify
default_weight-HasWeight a h = elim (Bool-cases (leb_ℤ (weight_of h a) (pos 0))) [
  | inl none_given ↦ (0, ground arith)
  | inr given ↦ rw given (positive (weight_of h a) given)
]

default_weight_other : (a b : ℕ) (h : Store) → a ≢ b → (default_weight a h).cell b ≡ h.cell b
unfolding default_weight modify
default_weight_other a b h other = ground arith

pub default_weights-Weighed : (ts : List ℕ) (h : Store) → Weighed h (default_weights ts h)
unfolding default_weights
default_weights-Weighed [] h = record {
  next = refl;
  healthy = λ b. refl;
  idle = λ b. refl;
  stays = λ b p. p;
}
default_weights-Weighed (a ∷ ts) h =
    Weighed-trans h (default_weight a h) _ (default_weight-Weighed a h)
      (default_weights-Weighed ts (default_weight a h))

pub default_weights-HasWeight :
    (ts : List ℕ) (h : Store) (a : ℕ) → In a ts → HasWeight (default_weights ts h) a
unfolding default_weights
default_weights-HasWeight [] h a m = absurd m
default_weights-HasWeight (t ∷ ts) h a (inl e) =
    (default_weights-Weighed ts (default_weight t h)).stays a
      (subst (HasWeight (default_weight t h)) (sym e) (default_weight-HasWeight t h))
default_weights-HasWeight (t ∷ ts) h a (inr m) = default_weights-HasWeight ts _ a m

pub default_weights_others :
    (ts : List ℕ) (h : Store) (b : ℕ) → ¬ In b ts → (default_weights ts h).cell b ≡ h.cell b
unfolding default_weights
default_weights_others [] h b out = refl
default_weights_others (t ∷ ts) h b out =
    default_weights_others ts _ b (λ m. out (inr m))
    ∙ default_weight_other t b h (λ e. out (inl (sym e)))
