-- ===== src/LoadBalancer/RoundRobin.antt =====
-- The round robin within one cycle of its 32-bit counter: it tries every target, and in turn.
use native.Mathlib.Nat.{mul-add-mod_self_left, mod-eq_of_lt, mod-lt, div-add-mod}
use corridor.Prelude.{
  ℕ, zero, suc, ◌+◌, ◌-◌, ◌*◌, ◌/◌, ◌%◌, ◌^◌, ◌<◌, ◌≤◌, ◌≡◌, refl, sym, ◌∙◌, ap, arith, leb, leb→le,
  Bool-cases, inl, inr, true, false, List, [], ◌∷◌, length, ok, err, In, get_elem?, get_elem?_total,
  some, ◌≢◌, All, if◌then◌else◌, map, All-get_elem?,
}
use corridor.Prelude.Text.{Text}
use corridor.LoadBalancer.Target.{Store, is_healthy}
use corridor.LoadBalancer.Next.{
  LoadBalancer, round_robin, no_healthy, Picked, element, target_at, next_index, current_index,
  round_robin_loop, next_round_robin, next,
}
use corridor.LoadBalancer.Sound.{IsLive}

-- Among `n` numbers in a row one has the residue `j`.
residue : (i n j : ℕ) → j < n → (v : ℕ) × (i ≤ v) × (v < i + n) × (v % n ≡ j)
residue i n j h =
    let split = div-add-mod i n in
    let small = mod-lt i {m = n} (omega arith) in
    elim (Bool-cases (leb (i % n) j)) [
      | inl e ↦
          let low = leb→le _ _ e in
          (
            n * (i / n) + j,
            omega arith,
            omega arith,
            mul-add-mod_self_left n (i / n) j ∙ mod-eq_of_lt h,
          )
      | inr e ↦
          let high : j < i % n = ground arith in
          (
            n * (i / n + 1) + j,
            omega arith,
            omega arith,
            mul-add-mod_self_left n (i / n + 1) j ∙ mod-eq_of_lt h,
          )
    ]

pub current-index : (i : ℕ) → i < 2 ^ 32 → current_index i ≡ i
current-index i h = omega arith

-- Within the size of the counter, a position reads the target at its residue.
pub target_at_residue :
    (ts : List ℕ) (c : ℕ)
    → 0 < length ts
    → length ts < 2 ^ 32
    → target_at ts c (length ts) ≡ element (get_elem? ts (c % length ts))
unfolding target_at
target_at_residue ts c pos small =
    let whole : length ts % 2 ^ 32 ≡ length ts = omega arith in rw whole (ground arith)

pub target_at_total :
    (ts : List ℕ) (c : ℕ)
    → 0 < length ts
    → length ts < 2 ^ 32
    → (a : ℕ) × (target_at ts c (length ts) ≡ ok a)
target_at_total ts c pos small =
    let (a, e) = get_elem?_total ts (c % length ts) (mod-lt c pos) in
    (a, target_at_residue ts c pos small ∙ ap element e)

In-get_elem? :
    (ts : List ℕ) (a : ℕ) → In a ts → (j : ℕ) × (j < length ts) × (get_elem? ts j ≡ some a)
In-get_elem? [] a m = absurd m
In-get_elem? (t ∷ ts) a (inl e) = (0, omega arith, ap some (sym e))
In-get_elem? (t ∷ ts) a (inr m) = let (j, h, e) = In-get_elem? ts a m in (suc j, omega arith, e)

next_round_robin_loop :
    (h : Store) (ts : List ℕ) (i : ℕ)
    → 0 < length ts
    → next_round_robin h ts i ≡ round_robin_loop h ts (length ts) (length ts) i
unfolding next_round_robin
next_round_robin_loop h [] i pos = absurd (omega arith)
next_round_robin_loop h (a ∷ ts) i pos = refl

-- One round, at a counter that fits its 32 bits.
round_robin_loop_step :
    (h : Store) (ts : List ℕ) (n rounds i a : ℕ)
    → i < 2 ^ 32
    → target_at ts i n ≡ ok a
    → round_robin_loop h ts n (suc rounds) i ≡ (
        if is_healthy h a
        then (ok a, next_index i)
        else round_robin_loop h ts n rounds (next_index i))
unfolding round_robin_loop
round_robin_loop_step h ts n rounds i a fits e =
    let now = ap (λ c. target_at ts c n) (current-index i fits) ∙ e in rw (now, round_robin_loop)

module _ (h : Store) (ts : List ℕ) (some_target : 0 < length ts) (small : length ts < 2 ^ 32) where
  -- The loop finds a target as soon as one of the positions ahead of it holds a healthy one.
  round_robin_loop_finds :
      (rounds i v a : ℕ)
      → i + rounds ≤ 2 ^ 32
      → i ≤ v
      → v < i + rounds
      → target_at ts v (length ts) ≡ ok a
      → is_healthy h a ≡ true
      → (b : ℕ) × ((round_robin_loop h ts (length ts) rounds i).0 ≡ ok b)
  round_robin_loop_finds zero i v a room from to here well = absurd (omega arith)
  round_robin_loop_finds (suc rounds) i v a room from to here well =
      let (c, e) = target_at_total ts i some_target small in
      let step = round_robin_loop_step h ts (length ts) rounds i c (omega arith) e in
      elim (Bool-cases (is_healthy h c)) [
        | inl live ↦ (c, ap (λ r. r.0) step ∙ rw live refl)
        | inr sick ↦
            let past : i ≢ v = λ same. cc in
            let on : next_index i ≡ i + 1 = omega arith in
            let (b, found) =
              round_robin_loop_finds rounds (next_index i) v a (omega arith) (omega arith)
                (omega arith) here well in
            (b, ap (λ r. r.0) step ∙ rw sick found)
      ]

  -- While the counter does not pass its end, a round robin with a healthy target finds one.
  pub next_round_robin_finds :
      (i a : ℕ)
      → i + length ts ≤ 2 ^ 32
      → IsLive h ts a
      → (b : ℕ) × ((next_round_robin h ts i).0 ≡ ok b)
  next_round_robin_finds i a room (m, well) =
      let (j, inside, found) = In-get_elem? ts a m in
      let (v, from, to, same) = residue i (length ts) j inside in
      let here : target_at ts v (length ts) ≡ ok a =
        target_at_residue ts v some_target small
        ∙ ap (λ k. element (get_elem? ts k)) same
        ∙ ap element found in
      rw (next_round_robin_loop h ts i some_target)
        (round_robin_loop_finds (length ts) i v a room from to here well)

  -- With a healthy target at its position the round robin takes it and moves on by one.
  pub next_round_robin_here :
      (i a : ℕ)
      → i < 2 ^ 32
      → get_elem? ts (i % length ts) ≡ some a
      → is_healthy h a ≡ true
      → next_round_robin h ts i ≡ (ok a, (i + 1) % 2 ^ 32)
  next_round_robin_here i a fits found well =
      let here = target_at_residue ts i some_target small ∙ ap element found in
      let positive : length ts ≡ suc (length ts - 1) = omega arith in
      let step = round_robin_loop_step h ts (length ts) (length ts - 1) i a fits here in
      next_round_robin_loop h ts i some_target
      ∙ ap (λ k. round_robin_loop h ts (length ts) k i) positive
      ∙ step
      ∙ rw well refl

-- What `calls` calls of `Next` in a row return.
unfoldable pub picks : Store → (ℕ → ℕ) → ℕ → LoadBalancer → List Picked
unfolding next
picks h intn zero lb = []
picks h intn (suc calls) lb = (next h intn lb).0 ∷ picks h intn calls (next h intn lb).1

abbrev pub from_on : ℕ → ℕ → List ℕ
from_on i zero = []
from_on i (suc k) = i ∷ from_on (i + 1) k

-- While every target is healthy and the counter does not pass its end, calls in a row return the
-- targets in turn: the call at counter `m` returns the one at position `m` modulo their number.
pub picks-round_robin :
    (h : Store) (intn : ℕ → ℕ) (name : Text) (ts : List ℕ) (calls i : ℕ)
    → 0 < length ts
    → length ts < 2 ^ 32
    → i + calls ≤ 2 ^ 32
    → All (λ a. is_healthy h a ≡ true) ts
    → picks h intn calls (round_robin name ts i)
      ≡ map (λ m. element (get_elem? ts (m % length ts))) (from_on i calls)
unfolding picks
picks-round_robin h intn name ts zero i pos small room well = refl
picks-round_robin h intn name ts (suc calls) i pos small room well =
    let (a, found) = get_elem?_total ts (i % length ts) (mod-lt i pos) in
    let live = All-get_elem? (λ b. is_healthy h b ≡ true) ts (i % length ts) a well found in
    let taken = next_round_robin_here h ts pos small i a (omega arith) found live in
    rw (taken, found) (ap (◌∷◌ (ok a)) (later calls room (picks-round_robin h intn name ts calls)))
  where
    later :
        (k : ℕ)
        → i + suc k ≤ 2 ^ 32
        → ((j : ℕ)
            → 0 < length ts
            → length ts < 2 ^ 32
            → j + k ≤ 2 ^ 32
            → All (λ a. is_healthy h a ≡ true) ts
            → picks h intn k (round_robin name ts j)
              ≡ map (λ m. element (get_elem? ts (m % length ts))) (from_on j k))
        → picks h intn k (round_robin name ts ((i + 1) % 2 ^ 32))
          ≡ map (λ m. element (get_elem? ts (m % length ts))) (from_on (i + 1) k)
    later zero fits ih = refl
    later (suc k) fits ih =
        let on : (i + 1) % 2 ^ 32 ≡ i + 1 = omega arith in
        ap (λ j. picks h intn (suc k) (round_robin name ts j)) on
        ∙ ih (i + 1) pos small (omega arith) well

-- At the end of the counter a cycle is cut short: with three targets, of which the first two are
-- unhealthy, the round robin reports that no target is healthy, whatever the third one is.
pub round_robin_skips :
    (h : Store) (a b c : ℕ)
    → is_healthy h a ≡ false
    → is_healthy h b ≡ false
    → (next_round_robin h (a ∷ b ∷ c ∷ []) (2 ^ 32 - 1)).0 ≡ err no_healthy
unfolding next_round_robin round_robin_loop target_at
round_robin_skips h a b c sick_a sick_b = rw (sick_a, sick_b) refl
