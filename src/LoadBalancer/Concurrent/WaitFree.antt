-- ===== src/LoadBalancer/Concurrent/WaitFree.antt =====
-- Every call of the round robin ends by its own steps, whatever the other calls do.
use corridor.Prelude.{
  ℕ, zero, suc, ◌-◌, ◌^◌, ◌<◌, ◌≤◌, ◌≡◌, refl, sym, ap, ◌∙◌, List, [], ◌∷◌, ok, err, arith, eqb,
  length, Bool-cases, inl, inr, if◌then◌else◌, get_elem?-In, get_elem?_total, ◌%◌,
}
use native.Mathlib.Nat.{mod-lt}
use corridor.LoadBalancer.Target.{Store, is_healthy}
use corridor.LoadBalancer.Next.{
  Picked, no_targets, no_healthy, panics, target_at, current_index, element,
}
use corridor.LoadBalancer.Sound.{IsLive}
use corridor.LoadBalancer.RoundRobin.{target_at_residue}
use corridor.LoadBalancer.Concurrent.{
  Attempt, trying, returned, Shared, begun, tried, round, step, run,
}

-- How many steps of a schedule are those of a call.
unfoldable pub count : ℕ → List ℕ → ℕ
count k [] = 0
count k (j ∷ schedule) = let rest = count k schedule in if eqb k j then suc rest else rest

-- A bound on the steps that a call has left.
abbrev steps_left : Attempt → ℕ
steps_left (returned p) = 0
steps_left (trying left) = suc left

-- What a call may return: a healthy target of the list, or one of its two errors.
abbrev pub IsAnswer : Store → List ℕ → Picked → Type 0
IsAnswer h ts (ok a) = IsLive h ts a
IsAnswer h ts (err panics) = ⊥
IsAnswer h ts (err no_targets) = Unit {0}
IsAnswer h ts (err no_healthy) = Unit {0}

abbrev IsSound : Store → List ℕ → Attempt → Type 0
IsSound h ts (returned p) = IsAnswer h ts p
IsSound h ts (trying left) = Unit {0}

module _ (h : Store) (ts : List ℕ) where
  tried_fewer : (left : ℕ) (p : Picked) → steps_left (tried h left p) ≤ suc left
  tried_fewer left (err e) = omega arith
  tried_fewer left (ok a) = ground arith

  round_fewer : (i : ℕ) (c : Attempt) → steps_left (round h ts i c).0 ≤ steps_left c - 1
  unfolding round
  round_fewer i (returned p) = omega arith
  round_fewer i (trying zero) = omega arith
  round_fewer i (trying (suc left)) =
      let fewer : steps_left (round h ts i (trying (suc left))).0 ≤ suc left =
        tried_fewer left (target_at ts (current_index i) (length ts)) in
      omega arith

  run_fewer :
      (k : ℕ) (schedule : List ℕ) (s : Shared)
      → steps_left ((run h ts schedule s).calls k) ≤ steps_left (s.calls k) - count k schedule
  unfolding run count
  run_fewer k [] s = omega arith
  run_fewer k (j ∷ schedule) s =
      let rest = run_fewer k schedule (step h ts j s) in
      elim (Bool-cases (eqb k j)) [
        | inl own ↦
            let same : k ≡ j = ground arith in
            let fewer : steps_left (round h ts s.counter (s.calls j)).0
                ≤ steps_left (s.calls k) - 1 =
              rw same (round_fewer s.counter (s.calls j)) in
            let mine = rw own at rest in rw own (omega arith)
        | inr other ↦ rw other (rw other at rest)
      ]

module _ (h : Store) (ts : List ℕ) (small : length ts < 2 ^ 32) where
  tried-IsSound :
      (left i : ℕ) → 0 < length ts → IsSound h ts (tried h left (target_at ts i (length ts)))
  tried-IsSound left i some_target =
      let inside = mod-lt i some_target in
      let (a, found) = get_elem?_total ts (i % length ts) inside in
      let here = target_at_residue ts i some_target small ∙ ap element found in
      elim (Bool-cases (is_healthy h a)) [
        | inl live ↦ rw (here, live) (get_elem?-In ts (i % length ts) a found, live)
        | inr sick ↦ rw (here, sick) tt
      ]

  round-IsSound :
      (i : ℕ) (c : Attempt) → 0 < length ts → IsSound h ts c → IsSound h ts (round h ts i c).0
  unfolding round
  round-IsSound i (returned p) some_target sound = sound
  round-IsSound i (trying zero) some_target sound = tt
  round-IsSound i (trying (suc left)) some_target sound =
      tried-IsSound left (current_index i) some_target

  run-IsSound :
      (k : ℕ) (schedule : List ℕ) (s : Shared)
      → 0 < length ts
      → IsSound h ts (s.calls k)
      → IsSound h ts ((run h ts schedule s).calls k)
  unfolding run
  run-IsSound k [] s some_target sound = sound
  run-IsSound k (j ∷ schedule) s some_target sound =
      run-IsSound k schedule (step h ts j s) some_target (elim (Bool-cases (eqb k j)) [
        | inl own ↦
            let same : k ≡ j = ground arith in
            rw own (round-IsSound s.counter (s.calls j) some_target (rw (sym same) sound))
        | inr other ↦ rw other sound
      ])

-- A call that has ended stays so.
pub run_returned :
    (h : Store) (ts : List ℕ) (k : ℕ) (p : Picked) (schedule : List ℕ) (s : Shared)
    → s.calls k ≡ returned p
    → (run h ts schedule s).calls k ≡ returned p
unfolding run round
run_returned h ts k p [] s e = e
run_returned h ts k p (j ∷ schedule) s e =
    run_returned h ts k p schedule (step h ts j s) (elim (Bool-cases (eqb k j)) [
      | inl own ↦
          let same : j ≡ k = ground arith in
          rw own (ap (λ c. (round h ts s.counter c).0) (ap s.calls same ∙ e))
      | inr other ↦ rw other e
    ])

ended : (c : Attempt) → steps_left c ≡ 0 → (p : Picked) × (c ≡ returned p)
ended (returned p) none_left = (p, refl)
ended (trying left) none_left = absurd (omega arith)

-- Any number of calls of the round robin at the same time over fewer than 2 ^ 32 targets, in any
-- order of their steps and from any value of the counter: a call that has made one step more than there are targets has ended,
-- whatever steps the others have made between its own, and it has returned a healthy target of
-- the balancer, or that there are no targets, or that none is healthy, and has not panicked.
pub run-IsAnswer :
    (h : Store) (ts : List ℕ) (i k : ℕ) (schedule : List ℕ)
    → length ts < 2 ^ 32
    → length ts < count k schedule
    → (p : Picked) × ((run h ts schedule (begun ts i)).calls k ≡ returned p) × IsAnswer h ts p
run-IsAnswer h [] i k schedule small enough =
    (err no_targets, run_returned h [] k (err no_targets) schedule (begun [] i) refl, tt)
run-IsAnswer h (a ∷ ts) i k schedule small enough =
    let fewer = run_fewer h (a ∷ ts) k schedule (begun (a ∷ ts) i) in
    let (p, end) = ended ((run h (a ∷ ts) schedule (begun (a ∷ ts) i)).calls k) (omega arith) in
    let sound = run-IsSound h (a ∷ ts) small k schedule (begun (a ∷ ts) i) (omega arith) tt in
    (p, end, rw end at sound)
