-- ===== src/LoadBalancer/Concurrent.antt =====
-- app/proxy/loadbalancer.go: calls of the round robin's `Next` that run at the same time. Each holds
-- the lock for reading only, so that they share the counter by its atomic additions, one in each
-- round of a call. A schedule is the list of the calls in the order in which they make their steps.
pub mod WaitFree
pub mod Starved
pub mod Alone
use corridor.Prelude.{ℕ, zero, suc, List, [], ◌∷◌, ok, err, eqb, length, if◌then◌else◌}
use corridor.LoadBalancer.Target.{Store, is_healthy}
use corridor.LoadBalancer.Next.{
  Picked, no_targets, no_healthy, target_at, next_index, current_index,
}

-- A call with the rounds of its loop that are left, or with what it has returned.
pub data Attempt : Type 0 where
  trying : ℕ → Attempt
  returned : Picked → Attempt

pub record Shared : Type 0 where
  pub counter : ℕ
  pub calls : ℕ → Attempt

abbrev pub begin : List ℕ → Attempt
begin [] = returned (err no_targets)
begin (a ∷ ts) = trying (length (a ∷ ts))

-- A number for each of any number of calls, with the counter where they find it.
abbrev pub begun : List ℕ → ℕ → Shared
begun ts i = record { counter = i; calls = λ k. begin ts }

abbrev pub tried : Store → ℕ → Picked → Attempt
tried h left (err e) = returned (err e)
tried h left (ok a) = if is_healthy h a then returned (ok a) else trying left

-- A step of a call: a round, with the atomic addition that starts it, or the return after the last.
unfoldable pub round : Store → List ℕ → ℕ → Attempt → Attempt × ℕ
round h ts i (returned p) = (returned p, i)
round h ts i (trying zero) = (returned (err no_healthy), i)
round h ts i (trying (suc left)) =
    (tried h left (target_at ts (current_index i) (length ts)), next_index i)

abbrev pub step : Store → List ℕ → ℕ → Shared → Shared
step h ts k s = record {
  counter = (round h ts s.counter (s.calls k)).1;
  calls = λ j. if eqb j k then (round h ts s.counter (s.calls k)).0 else s.calls j;
}

unfoldable pub run : Store → List ℕ → List ℕ → Shared → Shared
run h ts [] s = s
run h ts (k ∷ schedule) s = run h ts schedule (step h ts k s)
