-- ===== src/LoadBalancer/Least.antt =====
-- The least-connections balancer picks a healthy target that no healthy one undercuts.
use corridor.Prelude.{
  ℕ, ◌≡◌, refl, sym, ◌∙◌, ap, subst, inl, inr, List, [], ◌∷◌, Option, none, some, ok, true, false,
  arith, Bool-cases,
}
use corridor.Prelude.Int.{ℤ, negsuc, ltb_ℤ, ◌≤ℤ◌}
use corridor.LoadBalancer.Target.{Store, is_healthy, get_active_connections}
use corridor.LoadBalancer.Next.{least_loop, next_least, or_no_healthy}
use corridor.LoadBalancer.Sound.{IsLive, least_loop-IsLive}

-- No healthy target of the list has fewer connections.
abbrev pub IsLowest : Store → List ℕ → ℕ → Type 0
IsLowest h ts a = (b : ℕ) → IsLive h ts b → get_active_connections h a ≤ℤ get_active_connections h b

abbrev Minimum : Store → Option ℕ → ℤ → List ℕ → Type 0
Minimum h best least xs =
    (a : ℕ) × (least_loop h best least xs ≡ some a)
    × (get_active_connections h a ≤ℤ least)
    × IsLowest h xs a

IsLowest-cons :
    (h : Store) (a x : ℕ) (xs : List ℕ)
    → (is_healthy h x ≡ true → get_active_connections h a ≤ℤ get_active_connections h x)
    → IsLowest h xs a
    → IsLowest h (x ∷ xs) a
IsLowest-cons h a x xs here there b (inl e, well) =
    subst (λ y. get_active_connections h a ≤ℤ get_active_connections h y) (sym e)
      (here (sym (ap (is_healthy h) e) ∙ well))
IsLowest-cons h a x xs here there b (inr m, well) = there b (m, well)

-- Once a best target is known the loop ends on one at least as good as all that it has seen.
least_loop-Minimum :
    (h : Store) (y : ℕ) (least : ℤ) (xs : List ℕ)
    → least ≡ get_active_connections h y
    → Minimum h (some y) least xs
unfolding least_loop
least_loop-Minimum h y least [] e = (y, refl, rw e (omega arith), λ b (m, _). absurd m)
least_loop-Minimum h y least (x ∷ xs) e = elim (Bool-cases (is_healthy h x)) [
  | inl well ↦ elim (Bool-cases (ltb_ℤ (get_active_connections h x) least)) [
    | inl fewer ↦
        let (a, found, le, low) = least_loop-Minimum h x (get_active_connections h x) xs refl in
        (a, rw (well, fewer) found, ground arith, IsLowest-cons h a x xs (λ _. le) low)
    | inr more ↦
        let (a, found, le, low) = least_loop-Minimum h y least xs e in
        (a, rw (well, more) found, le, IsLowest-cons h a x xs (λ _. ground arith) low)
  ]
  | inr sick ↦
      let (a, found, le, low) = least_loop-Minimum h y least xs e in
      (a, rw sick found, le, IsLowest-cons h a x xs (λ well. absurd (cc)) low)
]

least_loop-none :
    (h : Store) (least : ℤ) (xs : List ℕ) (b : ℕ)
    → IsLive h xs b
    → (a : ℕ) × (least_loop h none least xs ≡ some a) × IsLowest h xs a
unfolding least_loop
least_loop-none h least [] b (m, well) = absurd m
least_loop-none h least (x ∷ xs) b live = elim (Bool-cases (is_healthy h x)) [
  | inl well ↦
      let (a, found, le, low) = least_loop-Minimum h x (get_active_connections h x) xs refl in
      (a, rw well found, IsLowest-cons h a x xs (λ _. le) low)
  | inr sick ↦
      let (a, found, low) = least_loop-none h least xs b (later live sick) in
      (a, rw sick found, IsLowest-cons h a x xs (λ well. absurd (cc)) low)
]
  where
    later : IsLive h (x ∷ xs) b → is_healthy h x ≡ false → IsLive h xs b
    later (inl e, well) sick = absurd (cc)
    later (inr m, well) sick = (m, well)

-- If some target is healthy, the least-connections balancer returns a healthy target of its own
-- than which no healthy target of its list has fewer active connections.
pub next_least-IsLowest :
    (h : Store) (ts : List ℕ) (b : ℕ)
    → IsLive h ts b
    → (a : ℕ) × (next_least h ts ≡ ok a) × IsLive h ts a × IsLowest h ts a
unfolding next_least
next_least-IsLowest h [] b (m, well) = absurd m
next_least-IsLowest h (t ∷ ts) b live =
    let (a, found, low) = least_loop-none h (negsuc 0) (t ∷ ts) b live in
    (
      a,
      ap or_no_healthy found,
      least_loop-IsLive h (t ∷ ts) none (negsuc 0) (t ∷ ts) a (λ c f. cc) (λ c m. m) found,
      low,
    )
