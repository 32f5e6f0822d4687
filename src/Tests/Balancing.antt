-- ===== src/Tests/Balancing.antt =====
-- Three targets, the second one unhealthy, under each of the balancers.
use corridor.Prelude.{
  ℕ, ◌^◌, ◌≡◌, refl, List, [], ◌∷◌, Bool, true, false, inl, inr, arith, ok, err, eqb, length,
  if◌then◌else◌, get_elem?, map, ◌%◌, ◌-◌,
}
use corridor.Prelude.Int.{ℤ, pos}
use corridor.Prelude.Text.{text}
use corridor.LoadBalancer.Target.{UpstreamTarget, Store, set_health}
use corridor.LoadBalancer.Next.{
  round_robin, no_healthy, next, round_robin_loop, next_round_robin, next_weighted, next_least,
  element, healthy_targets,
}
use corridor.LoadBalancer.Sound.{IsLive}
use corridor.LoadBalancer.RoundRobin.{picks, from_on, picks-round_robin, round_robin_skips}
use corridor.LoadBalancer.Concurrent.{returned, begun, round, run}
use corridor.LoadBalancer.Concurrent.WaitFree.{count, IsAnswer, run-IsAnswer}
use corridor.LoadBalancer.Concurrent.Starved.{crowded, run-crowded}
use corridor.LoadBalancer.Next.{Picked, target_at}
use corridor.LoadBalancer.Weighted.{urn, next_weighted-urn}
use corridor.LoadBalancer.Least.{IsLowest, next_least-IsLowest}
use corridor.LoadBalancer.Available.{next-IsLive}

abbrev target : Bool → ℤ → ℤ → UpstreamTarget
target healthy weight active = record {
  url = record { scheme = text "http"; host = text "a"; path = []; raw_query = [] };
  healthy = healthy;
  weight = weight;
  active_connections = active;
}

abbrev three : Store
three = record {
  next = 3;
  cell = λ a.
      if eqb a 0
      then target true (pos 2) (pos 5)
      else if eqb a 1
      then target false (pos 7) (pos 0)
      else target true (pos 1) (pos 4);
}

abbrev all : List ℕ
all = 0 ∷ 1 ∷ 2 ∷ []

-- A generator that always returns 0.
abbrev zero_draw : ℕ → ℕ
zero_draw n = 0

third-IsLive : IsLive three all 2
third-IsLive = (inr (inr (inl refl)), refl)

least_test : next_least three all ≡ ok 2
unfolding next_least
least_test = refl

round_robin_test : (next_round_robin three all 1).0 ≡ ok 2
unfolding next_round_robin round_robin_loop
round_robin_test = refl

picks-round_robin_example :
    picks three zero_draw 3 (round_robin (text "s") (0 ∷ 2 ∷ []) 5)
    ≡ map (λ m. element (get_elem? (0 ∷ 2 ∷ []) (m % 2))) (from_on 5 3)
picks-round_robin_example =
    picks-round_robin three zero_draw (text "s") (0 ∷ 2 ∷ []) 3 5 (omega arith) (omega arith)
      (omega arith) (refl, (refl, tt))

round_robin_skips_example :
    (next_round_robin (set_health false 0 three) all (2 ^ 32 - 1)).0 ≡ err no_healthy
unfolding set_health
round_robin_skips_example = round_robin_skips (set_health false 0 three) 0 1 2 refl refl

next_weighted-urn_example :
    next_weighted three zero_draw all
    ≡ element (
        get_elem?
          (urn three (healthy_targets three all))
          (zero_draw (length (urn three (healthy_targets three all)))))
unfolding healthy_targets urn
next_weighted-urn_example =
    next_weighted-urn three zero_draw all 2 ((1, refl), ((6, refl), ((0, refl), tt))) third-IsLive
      (omega arith) (λ n some_draw. some_draw)

next_least-IsLowest_example :
    (a : ℕ) × (next_least three all ≡ ok a) × IsLive three all a × IsLowest three all a
next_least-IsLowest_example = next_least-IsLowest three all 2 third-IsLive

next-IsLive_example :
    (a : ℕ) × ((next three zero_draw (round_robin (text "s") all 0)).0 ≡ ok a) × IsLive three all a
next-IsLive_example =
    next-IsLive three zero_draw (round_robin (text "s") all 0) 2 (λ n some_draw. some_draw)
      (omega arith, omega arith) third-IsLive

-- Two calls in turn over the three targets, from the counter at the unhealthy one.
run_test : (run three all (0 ∷ 1 ∷ 0 ∷ []) (begun all 1)).calls 0 ≡ returned (ok 0)
unfolding run round target_at
run_test = refl

run-IsAnswer_example :
    (p : Picked) × ((run three all (0 ∷ 1 ∷ 0 ∷ 0 ∷ 1 ∷ 0 ∷ []) (begun all 1)).calls 0 ≡ returned p)
    × IsAnswer three all p
unfolding count
run-IsAnswer_example =
    run-IsAnswer three all 1 0 (0 ∷ 1 ∷ 0 ∷ 0 ∷ 1 ∷ 0 ∷ []) (omega arith) (omega arith)

run-crowded_example :
    (run three (1 ∷ 0 ∷ 2 ∷ []) (crowded 2 3 1) (begun (1 ∷ 0 ∷ 2 ∷ []) 3)).calls 0
    ≡ returned (err no_healthy)
run-crowded_example = run-crowded three 1 (0 ∷ 2 ∷ []) 1 refl (refl, (refl, tt)) (omega arith)
