-- ===== src/LoadBalancer/Available.antt =====
-- No balancer fails while it has a healthy target.
use corridor.Prelude.{
  ℕ, ◌+◌, ◌<◌, ◌≤◌, ◌^◌, ◌≡◌, refl, ◌∙◌, ap, subst, inl, inr, List, [], ◌∷◌, Option, none, some, ok,
  In, length, get_elem?, get_elem?_total, arith, Bool-cases,
}
use corridor.Prelude.Int.{pos, leb_ℤ}
use corridor.LoadBalancer.Target.{Store}
use corridor.LoadBalancer.Next.{
  LoadBalancer, round_robin, random, weighted_random, least_connections, Picked, element,
  healthy_targets, pick_random, or_last, total_weight, next_random, next_weighted, weigh, next,
  targets,
}
use corridor.LoadBalancer.Sound.{IsLive, LivePick, healthy_targets_iff, next-LivePick}
use corridor.LoadBalancer.RoundRobin.{next_round_robin_finds}
use corridor.LoadBalancer.Weighted.{among_some, next_weighted-weigh}
use corridor.LoadBalancer.Least.{next_least-IsLowest}

-- A round robin's targets number less than 2^32, and its counter does not pass its end.
abbrev pub HasRoom : LoadBalancer → Type 0
HasRoom (round_robin name ts i) = (length ts < 2 ^ 32) × (i + length ts ≤ 2 ^ 32)
HasRoom (random name ts) = Unit {0}
HasRoom (weighted_random name ts) = Unit {0}
HasRoom (least_connections name ts) = Unit {0}

-- `Intn` returns a number below its argument.
abbrev pub Draws : (ℕ → ℕ) → Type 0
Draws intn = (n : ℕ) → 0 < n → intn n < n

abbrev IsOk : Picked → Type 0
IsOk p = (a : ℕ) × (p ≡ ok a)

length_pos : (a : ℕ) (xs : List ℕ) → In a xs → 0 < length xs
length_pos a [] m = absurd m
length_pos a (x ∷ xs) m = omega arith

element-IsOk : (xs : List ℕ) (i : ℕ) → i < length xs → IsOk (element (get_elem? xs i))
element-IsOk xs i h = let (a, e) = get_elem?_total xs i h in (a, ap element e)

module _ (h : Store) (intn : ℕ → ℕ) (draws : Draws intn) where
  pick_random-IsOk : (xs : List ℕ) → 0 < length xs → IsOk (pick_random xs intn)
  unfolding pick_random
  pick_random-IsOk xs some_target = element-IsOk xs _ (draws (length xs) some_target)

  or_last-IsOk : (xs : List ℕ) (o : Option ℕ) → 0 < length xs → IsOk (or_last xs o)
  or_last-IsOk xs none some_target = element-IsOk xs _ (omega arith)
  or_last-IsOk xs (some a) some_target = (a, refl)

  weigh-IsOk : (xs : List ℕ) → 0 < length xs → IsOk (weigh h intn xs)
  unfolding weigh
  weigh-IsOk xs some_target = elim (Bool-cases (leb_ℤ (total_weight h (pos 0) xs) (pos 0))) [
    | inl light ↦ rw light (pick_random-IsOk xs some_target)
    | inr heavy ↦ rw heavy (or_last-IsOk xs _ some_target)
  ]

  next_random-IsOk : (ts : List ℕ) (b : ℕ) → IsLive h ts b → IsOk (next_random h intn ts)
  unfolding next_random
  next_random-IsOk [] b (m, well) = absurd m
  next_random-IsOk (t ∷ ts) b live =
      let m = (healthy_targets_iff h (t ∷ ts) b).1 live in
      let (a, e) = pick_random-IsOk (healthy_targets h (t ∷ ts)) (length_pos b _ m) in
      (a, among_some b _ _ m ∙ e)

  next_weighted-IsOk : (ts : List ℕ) (b : ℕ) → IsLive h ts b → IsOk (next_weighted h intn ts)
  next_weighted-IsOk ts b live =
      let m = (healthy_targets_iff h ts b).1 live in
      let (a, e) = weigh-IsOk (healthy_targets h ts) (length_pos b _ m) in
      (a, next_weighted-weigh h intn ts b live ∙ e)

  next-IsOk :
      (lb : LoadBalancer) (b : ℕ) → HasRoom lb → IsLive h (targets lb) b → IsOk (next h intn lb).0
  unfolding next
  next-IsOk (round_robin name ts i) b (small, room) live =
      next_round_robin_finds h ts (length_pos b ts live.0) small i b room live
  next-IsOk (random name ts) b room live = next_random-IsOk ts b live
  next-IsOk (weighted_random name ts) b room live = next_weighted-IsOk ts b live
  next-IsOk (least_connections name ts) b room live =
      let (a, e, _, _) = next_least-IsLowest h ts b live in (a, e)

-- If draws are in range and a round robin's counter does not pass its end, `Next` of every
-- strategy returns a target as soon as one of the balancer's targets is healthy, and the target
-- that it returns is a healthy one of its own.
pub next-IsLive :
    (h : Store) (intn : ℕ → ℕ) (lb : LoadBalancer) (b : ℕ)
    → Draws intn
    → HasRoom lb
    → IsLive h (targets lb) b
    → (a : ℕ) × ((next h intn lb).0 ≡ ok a) × IsLive h (targets lb) a
next-IsLive h intn lb b draws room live =
    let (a, e) = next-IsOk h intn draws lb b room live in
    (a, e, subst (LivePick h (targets lb)) e (next-LivePick h intn lb))
