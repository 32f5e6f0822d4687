-- ===== src/LoadBalancer/Concurrent/Starved.antt =====
-- A call of the round robin that the others keep on one unhealthy target.
use corridor.Prelude.{
  eqb_self, ℕ, zero, suc, ◌+◌, ◌*◌, ◌%◌, ◌^◌, ◌<◌, ◌≤◌, ◌≡◌, ◌≢◌, refl, ap, ◌∙◌, List, [], ◌∷◌,
  ◌++◌, ok, err, arith, length, true, false, if◌then◌else◌, get_elem?, get_elem?_total, All,
  All-get_elem?,
}
use native.Mathlib.Nat.{mod-eq_of_lt, mul-add-mod_self_left}
use corridor.LoadBalancer.Target.{Store, is_healthy}
use corridor.LoadBalancer.Next.{no_healthy, target_at, next_index, element}
use corridor.LoadBalancer.RoundRobin.{target_at_residue, current-index, from_on}
use corridor.LoadBalancer.Concurrent.{trying, returned, Shared, begun, round, step, run}

-- In each round the call 0 makes a step, and after it each of `others` new calls, from `k` on.
unfoldable pub crowded : ℕ → ℕ → ℕ → List ℕ
crowded others zero k = 0 ∷ []
crowded others (suc rounds) k = 0 ∷ (from_on k others ++ crowded others rounds (k + others))

run-append :
    (h : Store) (ts xs ys : List ℕ) (s : Shared)
    → run h ts (xs ++ ys) s ≡ run h ts ys (run h ts xs s)
unfolding run
run-append h ts [] ys s = refl
run-append h ts (k ∷ xs) ys s = run-append h ts xs ys (step h ts k s)

module _ (h : Store) (ts : List ℕ) where
  round_at :
      (i left a : ℕ)
      → i < 2 ^ 32
      → target_at ts i (length ts) ≡ ok a
      → round h ts i (trying (suc left))
        ≡ ((if is_healthy h a then returned (ok a) else trying left), next_index i)
  unfolding round
  round_at i left a fits here =
      let now = ap (λ c. target_at ts c (length ts)) (current-index i fits) ∙ here in rw now refl

  step_own :
      (k i left a : ℕ) (s : Shared)
      → s.counter ≡ i
      → s.calls k ≡ trying (suc left)
      → i < 2 ^ 32
      → target_at ts i (length ts) ≡ ok a
      → ((step h ts k s).counter ≡ next_index i)
        × ((step h ts k s).calls k ≡ (if is_healthy h a then returned (ok a) else trying left))
  step_own k i left a s at_i trying_on fits here =
      let e =
        ap (λ c. round h ts c (s.calls k)) at_i
        ∙ ap (round h ts i) trying_on
        ∙ round_at i left a fits here in
      (ap (λ r. r.1) e, rw (eqb_self k) (ap (λ r. r.0) e))

  step_other : (k j : ℕ) (s : Shared) → j ≢ k → (step h ts k s).calls j ≡ s.calls j
  step_other k j s other = ground arith

-- From `k` on, no call has made a step.
abbrev Fresh : ℕ → ℕ → Shared → Type 0
Fresh n k s = (m : ℕ) → k ≤ m → s.calls m ≡ trying n

module _ (h : Store) (sick : ℕ) (well : List ℕ) (is_sick : is_healthy h sick ≡ false)
    (are_well : All (λ a. is_healthy h a ≡ true) well) where
  abbrev n : ℕ
  n = length (sick ∷ well)

  at_sick : (q : ℕ) → n < 2 ^ 32 → target_at (sick ∷ well) (n * q) n ≡ ok sick
  at_sick q small =
      let bare : n * q ≡ n * q + 0 = omega arith in
      let place =
        ap (λ x. x % n) bare ∙ mul-add-mod_self_left n q 0 ∙ mod-eq_of_lt {n = 0} (omega arith) in
      target_at_residue (sick ∷ well) (n * q) (omega arith) small
      ∙ ap (λ k. element (get_elem? (sick ∷ well) k)) place

  at_well :
      (q d : ℕ)
      → n < 2 ^ 32
      → suc d < n
      → (a : ℕ) × (target_at (sick ∷ well) (n * q + suc d) n ≡ ok a) × (is_healthy h a ≡ true)
  at_well q d small inside =
      let (a, found) = get_elem?_total well d (omega arith) in
      let place = mul-add-mod_self_left n q (suc d) ∙ mod-eq_of_lt inside in
      (
        a,
        target_at_residue (sick ∷ well) (n * q + suc d) (omega arith) small
            ∙ ap (λ k. element (get_elem? (sick ∷ well) k)) place
            ∙ ap element found,
        All-get_elem? (λ b. is_healthy h b ≡ true) well d a are_well found,
      )

  -- The new calls take the healthy targets, and bring the counter to the unhealthy one again.
  others_pass :
      (j k d q : ℕ) (s : Shared)
      → 0 < k
      → suc d + j ≡ n
      → n * q + n < 2 ^ 32
      → s.counter ≡ n * q + suc d
      → Fresh n k s
      → let after = run h (sick ∷ well) (from_on k j) s in
        (after.counter ≡ n * q + n) × (after.calls 0 ≡ s.calls 0) × Fresh n (k + j) after
  unfolding run
  others_pass zero k d q s later ends room at fresh =
      (omega arith, refl, λ m on. fresh m (omega arith))
  others_pass (suc j) k d q s later ends room at fresh =
      let (a, here, live) = at_well q d (omega arith) (omega arith) in
      let (on, taken) =
        step_own h (sick ∷ well) k (n * q + suc d) (length well) a s at (fresh k (omega arith))
          (omega arith) here in
      let s' = step h (sick ∷ well) k s in
      let beyond : Fresh n (suc k) s' =
        λ m past. step_other h (sick ∷ well) k m s (omega arith) ∙ fresh m (omega arith) in
      let (end, kept, rest) =
        others_pass j (k + 1) (suc d) q s' (omega arith) (omega arith) room (on ∙ omega arith)
          (λ m past. beyond m (omega arith)) in
      (end, kept ∙ step_other h (sick ∷ well) k 0 s (omega arith), λ m past. rest m (omega arith))

  crowded-no_healthy :
      (rounds q k : ℕ) (s : Shared)
      → 0 < k
      → n * (q + rounds) < 2 ^ 32
      → s.counter ≡ n * q
      → s.calls 0 ≡ trying rounds
      → Fresh n k s
      → (run h (sick ∷ well) (crowded (length well) rounds k) s).calls 0 ≡ returned (err no_healthy)
  unfolding run crowded round
  crowded-no_healthy zero q k s later room at trying_on fresh =
      ap (λ c. (round h (sick ∷ well) s.counter c).0) trying_on
  crowded-no_healthy (suc rounds) q k s later room at trying_on fresh =
      let (on, missed) =
        step_own h (sick ∷ well) 0 (n * q) rounds sick s at trying_on (omega arith)
          (at_sick q (omega arith)) in
      let s' = step h (sick ∷ well) 0 s in
      let untouched : Fresh n k s' =
        λ m past. step_other h (sick ∷ well) 0 m s (omega arith) ∙ fresh m past in
      let moved : s'.counter ≡ n * q + 1 = on ∙ omega arith in
      let (end, kept, rest) =
        others_pass (length well) k 0 q s' later (omega arith) (omega arith) moved untouched in
      let left : s'.calls 0 ≡ trying rounds = missed ∙ rw is_sick refl in
      let turn : n * q + n ≡ n * (q + 1) = omega arith in
      ap (λ r. r.calls 0)
        (run-append h (sick ∷ well) (from_on k (length well))
          (crowded (length well) rounds (k + length well)) s')
      ∙ crowded-no_healthy rounds (q + 1) (k + length well)
          (run h (sick ∷ well) (from_on k (length well)) s') (omega arith) (omega arith)
          (end ∙ turn) (kept ∙ left) rest

-- The round robin can starve a call when others run at the same time. With one unhealthy target
-- and any number of healthy ones, and the counter at the unhealthy one's turn, a call that makes
-- a step, and again whenever as many new calls as there are healthy targets have made one each,
-- reports in the end that no target is healthy, while the counter does not pass its end.
pub run-crowded :
    (h : Store) (sick : ℕ) (well : List ℕ) (q : ℕ)
    → is_healthy h sick ≡ false
    → All (λ a. is_healthy h a ≡ true) well
    → suc (length well) * (q + suc (length well)) < 2 ^ 32
    → (run h
          (sick ∷ well)
          (crowded (length well) (suc (length well)) 1)
          (begun (sick ∷ well) (suc (length well) * q))).calls
        0
      ≡ returned (err no_healthy)
run-crowded h sick well q is_sick are_well room =
    crowded-no_healthy h sick well is_sick are_well (suc (length well)) q 1
      (begun (sick ∷ well) (suc (length well) * q)) (omega arith) room refl refl (λ m past. refl)
