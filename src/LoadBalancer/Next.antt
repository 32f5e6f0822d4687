-- ===== src/LoadBalancer/Next.antt =====
-- app/proxy/loadbalancer.go: the four balancers and their `Next` and `UpdateTargets`.
-- What `lb.rand.Intn` returns during one call is the argument `intn`; a call draws at most once.
use corridor.Prelude.{
  ℕ, zero, suc, ◌+◌, ◌-◌, ◌%◌, ◌^◌, List, [], ◌∷◌, Option, none, some, Result, ok, err, eqb, length,
  get_elem?, if◌then◌else◌,
}
use corridor.Prelude.Int.{ℤ, pos, negsuc, add64, leb_ℤ, ltb_ℤ, pos_part}
use corridor.Prelude.Text.{Text}
use corridor.LoadBalancer.Target.{Store, is_healthy, get_active_connections}

-- Each constructor has its struct's name and targets; the round robin has `nextIndex` besides.
pub data LoadBalancer : Type 0 where
  round_robin : Text → List ℕ → ℕ → LoadBalancer
  random weighted_random least_connections : Text → List ℕ → LoadBalancer

-- The two errors that `Next` returns; `panics` is an index out of range or a division by zero.
pub data NextError : Type 0 where
  no_targets no_healthy panics : NextError

abbrev pub Picked : Type 0
Picked = Result NextError ℕ

-- A slice read at a position that the program computes.
abbrev pub element : Option ℕ → Picked
element none = err panics
element (some a) = ok a

-- `lb.targets[currentIndex%uint32(numTargets)]`.
unfoldable pub target_at : List ℕ → ℕ → ℕ → Picked
target_at ts current n =
    if eqb (n % 2 ^ 32) 0 then err panics else element (get_elem? ts (current % (n % 2 ^ 32)))

-- `atomic.AddUint32(&lb.nextIndex, 1)`, and the value before it.
abbrev pub next_index : ℕ → ℕ
next_index i = (i + 1) % 2 ^ 32

abbrev pub current_index : ℕ → ℕ
current_index i = (next_index i + 2 ^ 32 - 1) % 2 ^ 32

-- The loop of the round robin: `rounds` are left, `i` is `nextIndex`.
unfoldable pub round_robin_loop : Store → List ℕ → ℕ → ℕ → ℕ → Picked × ℕ
unfolding target_at
round_robin_loop h ts n zero i = (err no_healthy, i)
round_robin_loop h ts n (suc rounds) i =
    let rest = round_robin_loop h ts n rounds (next_index i) in
    elim (target_at ts (current_index i) n) [
      | err e ↦ (err e, next_index i)
      | ok a ↦ if is_healthy h a then (ok a, next_index i) else rest
    ]

unfoldable pub healthy_targets : Store → List ℕ → List ℕ
healthy_targets h [] = []
healthy_targets h (a ∷ ts) =
    let rest = healthy_targets h ts in if is_healthy h a then a ∷ rest else rest

unfoldable pub pick_random : List ℕ → (ℕ → ℕ) → Picked
pick_random healthy intn = element (get_elem? healthy (intn (length healthy)))

abbrev pub weight_of : Store → ℕ → ℤ
weight_of h a = (h.cell a).weight

-- `totalWeight += t.Weight` over the healthy targets.
unfoldable pub total_weight : Store → ℤ → List ℕ → ℤ
total_weight h acc [] = acc
total_weight h acc (a ∷ ts) = total_weight h (add64 acc (weight_of h a)) ts

-- The loop over the cumulative weights; `none` when it runs past the last target.
unfoldable pub pick_weighted : Store → ℤ → ℤ → List ℕ → Option ℕ
pick_weighted h r acc [] = none
pick_weighted h r acc (a ∷ ts) =
    let rest = pick_weighted h r (add64 acc (weight_of h a)) ts in
    if ltb_ℤ r (add64 acc (weight_of h a)) then some a else rest

-- The picked target, or `healthyTargets[len(healthyTargets)-1]`.
abbrev pub or_last : List ℕ → Option ℕ → Picked
or_last ts none = element (get_elem? ts (length ts - 1))
or_last ts (some a) = ok a

-- The loop of the least connections, with `bestTarget` and `minConnections`.
unfoldable pub least_loop : Store → Option ℕ → ℤ → List ℕ → Option ℕ
least_loop h best least [] = best
least_loop h best least (a ∷ ts) =
    let better = least_loop h (some a) (get_active_connections h a) ts in
    let same = least_loop h best least ts in
    if is_healthy h a
    then (elim best [
      | none ↦ better
      | some _ ↦ if ltb_ℤ (get_active_connections h a) least then better else same
    ])
    else same

unfoldable pub next_round_robin : Store → List ℕ → ℕ → Picked × ℕ
unfolding round_robin_loop
next_round_robin h [] i = (err no_targets, i)
next_round_robin h (a ∷ ts) i = round_robin_loop h (a ∷ ts) (length (a ∷ ts)) (length (a ∷ ts)) i

-- Of the healthy targets, if there are any.
abbrev pub among : List ℕ → Picked → Picked
among [] p = err no_healthy
among (_ ∷ _) p = p

unfoldable pub next_random : Store → (ℕ → ℕ) → List ℕ → Picked
unfolding healthy_targets pick_random
next_random h intn [] = err no_targets
next_random h intn (a ∷ ts) =
    among (healthy_targets h (a ∷ ts)) (pick_random (healthy_targets h (a ∷ ts)) intn)

unfoldable pub weigh : Store → (ℕ → ℕ) → List ℕ → Picked
unfolding pick_random total_weight pick_weighted
weigh h intn healthy =
    if leb_ℤ (total_weight h (pos 0) healthy) (pos 0)
    then pick_random healthy intn
    else or_last healthy
        (pick_weighted h (pos (intn (pos_part (total_weight h (pos 0) healthy)))) (pos 0) healthy)

unfoldable pub next_weighted : Store → (ℕ → ℕ) → List ℕ → Picked
unfolding healthy_targets weigh
next_weighted h intn [] = err no_targets
next_weighted h intn (a ∷ ts) =
    among (healthy_targets h (a ∷ ts)) (weigh h intn (healthy_targets h (a ∷ ts)))

abbrev pub or_no_healthy : Option ℕ → Picked
or_no_healthy none = err no_healthy
or_no_healthy (some a) = ok a

unfoldable pub next_least : Store → List ℕ → Picked
unfolding least_loop
next_least h [] = err no_targets
next_least h (a ∷ ts) = or_no_healthy (least_loop h none (negsuc 0) (a ∷ ts))

-- `LoadBalancer.Next`: the pick, and the balancer after it.
unfoldable pub next : Store → (ℕ → ℕ) → LoadBalancer → Picked × LoadBalancer
unfolding next_round_robin next_random next_weighted next_least
next h intn (round_robin name ts i) =
    let (p, i') = next_round_robin h ts i in (p, round_robin name ts i')
next h intn (random name ts) = (next_random h intn ts, random name ts)
next h intn (weighted_random name ts) = (next_weighted h intn ts, weighted_random name ts)
next h intn (least_connections name ts) = (next_least h ts, least_connections name ts)

abbrev pub targets : LoadBalancer → List ℕ
targets (round_robin name ts i) = ts
targets (random name ts) = ts
targets (weighted_random name ts) = ts
targets (least_connections name ts) = ts

abbrev pub get_service_name : LoadBalancer → Text
get_service_name (round_robin name ts i) = name
get_service_name (random name ts) = name
get_service_name (weighted_random name ts) = name
get_service_name (least_connections name ts) = name

-- `UpdateTargets` of each balancer.
abbrev pub update_round_robin : Text → List ℕ → LoadBalancer
update_round_robin name ts = round_robin name ts 0

abbrev pub update_random : Text → List ℕ → LoadBalancer
update_random name ts = random name ts

abbrev pub update_weighted : Text → List ℕ → LoadBalancer
update_weighted name ts = weighted_random name ts

abbrev pub update_least : Text → List ℕ → LoadBalancer
update_least name ts = least_connections name ts

unfoldable pub update_targets : List ℕ → LoadBalancer → LoadBalancer
update_targets ts (round_robin name _ i) = update_round_robin name ts
update_targets ts (random name _) = update_random name ts
update_targets ts (weighted_random name _) = update_weighted name ts
update_targets ts (least_connections name _) = update_least name ts
