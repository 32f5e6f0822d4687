-- ===== src/LoadBalancer/Concurrent/Alone.antt =====
-- A call that no other interrupts returns what the loop of `Next` does.
use corridor.Prelude.{
  ℕ, zero, suc, ◌≡◌, refl, ap, ◌∙◌, List, [], ◌∷◌, ok, err, length, Bool-cases, Result-cases, inl,
  inr,
}
use corridor.LoadBalancer.Target.{Store, is_healthy}
use corridor.LoadBalancer.Next.{
  no_targets, target_at, current_index, next_index, round_robin_loop, next_round_robin,
}
use corridor.LoadBalancer.Concurrent.{trying, returned, Shared, begun, tried, round, step, run}
use corridor.LoadBalancer.Concurrent.WaitFree.{run_returned}

abbrev pub own_steps : ℕ → List ℕ
own_steps zero = []
own_steps (suc k) = 0 ∷ own_steps k

module _ (h : Store) (ts : List ℕ) where
  run_loop :
      (left : ℕ) (s : Shared)
      → s.calls 0 ≡ trying left
      → (run h ts (own_steps (suc left)) s).calls 0
        ≡ returned (round_robin_loop h ts (length ts) left s.counter).0
  unfolding run round round_robin_loop
  run_loop zero s at = ap (λ c. (round h ts s.counter c).0) at
  run_loop (suc left) s at =
      let tr = target_at ts (current_index s.counter) (length ts) in
      let s' = step h ts 0 s in
      let moved : round h ts s.counter (s.calls 0) ≡ (tried h left tr, next_index s.counter) =
        ap (round h ts s.counter) at in
      elim (Result-cases tr) [
        | inl (a, found) ↦ elim (Bool-cases (is_healthy h a)) [
          | inl live ↦
              rw (found, round_robin_loop, live)
                (run_returned h ts 0 (ok a) (own_steps (suc left)) s'
                  (ap (λ r. r.0) moved ∙ rw (found, live) refl))
          | inr sick ↦
              rw (found, round_robin_loop, sick)
                (run_loop left s' (ap (λ r. r.0) moved ∙ rw (found, sick) refl)
                  ∙ ap (λ i. returned (round_robin_loop h ts (length ts) left i).0)
                      (ap (λ r. r.1) moved))
        ]
        | inr (e, found) ↦
            rw (found, round_robin_loop)
              (run_returned h ts 0 (err e) (own_steps (suc left)) s'
                (ap (λ r. r.0) moved ∙ rw found refl))
      ]

-- A call of the round robin that makes its steps with no other between them returns what `Next`
-- does as a whole, from any value of the counter.
pub run-next_round_robin :
    (h : Store) (ts : List ℕ) (i : ℕ)
    → (run h ts (own_steps (suc (length ts))) (begun ts i)).calls 0
      ≡ returned (next_round_robin h ts i).0
unfolding next_round_robin
run-next_round_robin h [] i = run_returned h [] 0 (err no_targets) (own_steps 1) (begun [] i) refl
run-next_round_robin h (a ∷ ts) i = run_loop h (a ∷ ts) (length (a ∷ ts)) (begun (a ∷ ts) i) refl
