-- ===== src/LoadBalancer/Sound.antt =====
-- Every balancer picks a healthy target of its own, and fails only when it finds none.
use corridor.Prelude.{
  ℕ, zero, suc, ◌≡◌, refl, inl, inr, List, [], ◌∷◌, Option, none, some, ok, err, true, arith, In,
  get_elem?, get_elem?-In, length, Bool-cases, Option-cases, subst, ap, sym, ◌∙◌, ◌↔◌, Result-cases,
  ◌%◌, ◌^◌, some-injective,
}
use corridor.Prelude.Int.{ℤ, pos, negsuc, leb_ℤ, ltb_ℤ, add64}
use corridor.LoadBalancer.Target.{Store, is_healthy, get_active_connections}
use corridor.LoadBalancer.Next.{
  LoadBalancer, round_robin, random, weighted_random, least_connections, Picked, element, target_at,
  next_index, current_index, round_robin_loop, healthy_targets, pick_random, total_weight,
  pick_weighted, or_last, least_loop, next_round_robin, next_random, weigh, next_weighted,
  next_least, next, targets, weight_of, among, or_no_healthy,
}

-- A target of the list that is healthy in the store.
abbrev pub IsLive : Store → List ℕ → ℕ → Type 0
IsLive h ts a = In a ts × (is_healthy h a ≡ true)

-- What a pick promises.
abbrev pub LivePick : Store → List ℕ → Picked → Type 0
LivePick h ts (ok a) = IsLive h ts a
LivePick h ts (err e) = Unit {0}

element-LivePick :
    (h : Store) (ts xs : List ℕ) (i : ℕ)
    → ((a : ℕ) → In a xs → IsLive h ts a)
    → LivePick h ts (element (get_elem? xs i))
element-LivePick h ts xs i live = elim (Option-cases (get_elem? xs i)) [
  | inl missing ↦ rw missing tt
  | inr (a, found) ↦ rw found (live a (get_elem?-In xs i a found))
]

-- The filter keeps exactly the healthy targets.
healthy_targets_sound :
    (h : Store) (ts : List ℕ) (a : ℕ) → In a (healthy_targets h ts) → IsLive h ts a
unfolding healthy_targets
healthy_targets_sound h [] a m = absurd m
healthy_targets_sound h (b ∷ ts) a m = elim (Bool-cases (is_healthy h b)) [
  | inl live ↦ kept (rw live at m) live (healthy_targets_sound h ts a)
  | inr sick ↦ let (old, live) = healthy_targets_sound h ts a (rw sick at m) in (inr old, live)
]
  where
    kept :
        In a (b ∷ healthy_targets h ts)
        → is_healthy h b ≡ true
        → (In a (healthy_targets h ts) → IsLive h ts a)
        → IsLive h (b ∷ ts) a
    kept (inl e) live ih = (inl e, ap (is_healthy h) e ∙ live)
    kept (inr k) live ih = let (old, healthy) = ih k in (inr old, healthy)

healthy_targets_complete :
    (h : Store) (ts : List ℕ) (a : ℕ) → IsLive h ts a → In a (healthy_targets h ts)
unfolding healthy_targets
healthy_targets_complete h [] a (m, live) = m
healthy_targets_complete h (b ∷ ts) a (inl e, live) = rw (sym (ap (is_healthy h) e) ∙ live) (inl e)
healthy_targets_complete h (b ∷ ts) a (inr m, live) = elim (Bool-cases (is_healthy h b)) [
  | inl also ↦ rw also (inr (healthy_targets_complete h ts a (m, live)))
  | inr sick ↦ rw sick (healthy_targets_complete h ts a (m, live))
]

pub healthy_targets_iff :
    (h : Store) (ts : List ℕ) (a : ℕ) → In a (healthy_targets h ts) ↔ IsLive h ts a
healthy_targets_iff h ts a = (healthy_targets_sound h ts a, healthy_targets_complete h ts a)

pub target_at-In : (ts : List ℕ) (c n a : ℕ) → target_at ts c n ≡ ok a → In a ts
unfolding target_at
target_at-In ts c n a h = get_elem?-In ts (c % (n % 2 ^ 32)) a (ground arith)

round_robin_loop-LivePick :
    (h : Store) (ts : List ℕ) (n rounds i : ℕ) → LivePick h ts (round_robin_loop h ts n rounds i).0
unfolding round_robin_loop
round_robin_loop-LivePick h ts n zero i = tt
round_robin_loop-LivePick h ts n (suc rounds) i =
    elim (Result-cases (target_at ts (current_index i) n)) [
      | inl (a, e) ↦ elim (Bool-cases (is_healthy h a)) [
        | inl live ↦ rw (e, live, round_robin_loop) (target_at-In ts _ n a e, live)
        | inr sick ↦
            rw (e, sick, round_robin_loop) (round_robin_loop-LivePick h ts n rounds (next_index i))
      ]
      | inr (e, failed) ↦ rw (failed, round_robin_loop) tt
    ]

-- The picks from the healthy targets.
module _ (h : Store) (ts : List ℕ) where
  IsLive-targets : (a : ℕ) → In a (healthy_targets h ts) → IsLive h ts a
  IsLive-targets = healthy_targets_sound h ts

  among-LivePick : (xs : List ℕ) (p : Picked) → LivePick h ts p → LivePick h ts (among xs p)
  among-LivePick [] p live = tt
  among-LivePick (_ ∷ _) p live = live

  pick_random-LivePick : (intn : ℕ → ℕ) → LivePick h ts (pick_random (healthy_targets h ts) intn)
  unfolding pick_random
  pick_random-LivePick intn = element-LivePick h ts (healthy_targets h ts) _ IsLive-targets

  or_last-LivePick :
      (o : Option ℕ)
      → ((a : ℕ) → o ≡ some a → IsLive h ts a)
      → LivePick h ts (or_last (healthy_targets h ts) o)
  or_last-LivePick none live = element-LivePick h ts (healthy_targets h ts) _ IsLive-targets
  or_last-LivePick (some a) live = live a refl

pick_weighted-In :
    (h : Store) (r acc : ℤ) (xs : List ℕ) (a : ℕ) → pick_weighted h r acc xs ≡ some a → In a xs
unfolding pick_weighted
pick_weighted-In h r acc [] a e = cc
pick_weighted-In h r acc (x ∷ xs) a e = elim (Bool-cases (ltb_ℤ r (add64 acc (weight_of h x)))) [
  | inl here ↦ inl (some-injective (sym (rw here at e)))
  | inr past ↦ inr (pick_weighted-In h r (add64 acc (weight_of h x)) xs a (rw past at e))
]

weigh-LivePick :
    (h : Store) (ts : List ℕ) (intn : ℕ → ℕ) → LivePick h ts (weigh h intn (healthy_targets h ts))
unfolding weigh
weigh-LivePick h ts intn =
    elim (Bool-cases (leb_ℤ (total_weight h (pos 0) (healthy_targets h ts)) (pos 0))) [
      | inl light ↦ rw light (pick_random-LivePick h ts intn)
      | inr heavy ↦ rw heavy (
          or_last-LivePick h ts _
            (λ a e. IsLive-targets h ts a (pick_weighted-In h (pos (intn _)) (pos 0) _ a e)))
    ]

pub least_loop-IsLive :
    (h : Store) (ts : List ℕ) (best : Option ℕ) (least : ℤ) (xs : List ℕ) (a : ℕ)
    → ((b : ℕ) → best ≡ some b → IsLive h ts b)
    → ((b : ℕ) → In b xs → In b ts)
    → least_loop h best least xs ≡ some a
    → IsLive h ts a
unfolding least_loop
least_loop-IsLive h ts best least [] a live inside e = live a e
least_loop-IsLive h ts none least (x ∷ xs) a live inside e = elim (Bool-cases (is_healthy h x)) [
  | inl well ↦
      least_loop-IsLive h ts (some x) (get_active_connections h x) xs a (new well)
        (λ b m. inside b (inr m)) (rw well at e)
  | inr sick ↦ least_loop-IsLive h ts none least xs a live (λ b m. inside b (inr m)) (rw sick at e)
]
  where
    new : is_healthy h x ≡ true → (b : ℕ) → some x ≡ some b → IsLive h ts b
    new well b f = subst (IsLive h ts) (some-injective f) (inside x (inl refl), well)
least_loop-IsLive h ts (some y) least (x ∷ xs) a live inside e =
    elim (Bool-cases (is_healthy h x)) [
      | inl well ↦ elim (Bool-cases (ltb_ℤ (get_active_connections h x) least)) [
        | inl fewer ↦
            least_loop-IsLive h ts (some x) (get_active_connections h x) xs a (new well)
              (λ b m. inside b (inr m)) (rw (well, fewer) at e)
        | inr more ↦
            least_loop-IsLive h ts (some y) least xs a live (λ b m. inside b (inr m))
              (rw (well, more) at e)
      ]
      | inr sick ↦
          least_loop-IsLive h ts (some y) least xs a live (λ b m. inside b (inr m)) (rw sick at e)
    ]
  where
    new : is_healthy h x ≡ true → (b : ℕ) → some x ≡ some b → IsLive h ts b
    new well b f = subst (IsLive h ts) (some-injective f) (inside x (inl refl), well)

or_no_healthy-LivePick :
    (h : Store) (ts : List ℕ) (o : Option ℕ)
    → ((a : ℕ) → o ≡ some a → IsLive h ts a)
    → LivePick h ts (or_no_healthy o)
or_no_healthy-LivePick h ts none live = tt
or_no_healthy-LivePick h ts (some a) live = live a refl

-- Whatever the strategy and the draw, a target that `Next` returns is one of the balancer's own
-- and is marked healthy.
pub next-LivePick :
    (h : Store) (intn : ℕ → ℕ) (lb : LoadBalancer) → LivePick h (targets lb) (next h intn lb).0
unfolding next next_round_robin next_random next_weighted next_least
next-LivePick h intn (round_robin name [] i) = tt
next-LivePick h intn (round_robin name (a ∷ ts) i) =
    round_robin_loop-LivePick h (a ∷ ts) (length (a ∷ ts)) (length (a ∷ ts)) i
next-LivePick h intn (random name []) = tt
next-LivePick h intn (random name (a ∷ ts)) =
    among-LivePick h (a ∷ ts) _ _ (pick_random-LivePick h (a ∷ ts) intn)
next-LivePick h intn (weighted_random name []) = tt
next-LivePick h intn (weighted_random name (a ∷ ts)) =
    among-LivePick h (a ∷ ts) _ _ (weigh-LivePick h (a ∷ ts) intn)
next-LivePick h intn (least_connections name []) = tt
next-LivePick h intn (least_connections name (a ∷ ts)) =
    or_no_healthy-LivePick h (a ∷ ts) _
      (λ b. least_loop-IsLive h (a ∷ ts) none (negsuc 0) (a ∷ ts) b (λ c f. cc) (λ c m. m))
