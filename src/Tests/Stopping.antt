-- ===== src/Tests/Stopping.antt =====
-- Two goroutines of the health checker, one target each, and their end.
use corridor.Prelude.{
  ℕ, ◌+◌, ◌*◌, ◌⊎◌, zero, suc, ◌<◌, ◌≤◌, ◌≡◌, refl, List, [], ◌∷◌, false, some, arith, length,
}
use corridor.Prelude.Text.{text, ◌==◌}
use corridor.LoadBalancer.Target.{is_healthy}
use corridor.LoadBalancer.Next.{LoadBalancer, round_robin}
use corridor.Proxy.Health.{first_with}
use corridor.HealthChecker.Probe.{Network}
use corridor.HealthChecker.Loop.{
  System, after_check, finish_monitor, tick, close_stop_chan, first, another, ticks, leaves, Run,
  ends, checks, passes,
}
use corridor.HealthChecker.Loop.Independent.{status_after, networks_of}
use corridor.HealthChecker.Loop.Stopped.{AllFinished}
use corridor.HealthChecker.Loop.Bounded.{steps_in, ticks_in, CanGoOn, stop-AllFinished}
use corridor.HealthChecker.{start_target}
use corridor.HealthChecker.Start.{Checking, start, start_targets}
use corridor.HealthChecker.Loop.Launched.{launch, started, status_at, Assigned, launch-is_healthy}
use corridor.Tests.Monitoring.{services}
use corridor.Tests.Health.{url_string, two_targets, balancers, answering, plain_known, second_found}

abbrev starting : Checking
starting = started url_string balancers services two_targets

abbrev launched : System
launched = launch starting

abbrev both : LoadBalancer
both = round_robin (text "plain") (0 ∷ 1 ∷ []) 0

abbrev s1 : System
s1 = after_check url_string balancers (answering 503) false 1 launched

abbrev s2 : System
s2 = after_check url_string balancers (answering 200) false 0 s1

abbrev s3 : System
s3 = after_check url_string balancers (answering 503) false 1 (tick 1 s2)

abbrev history : List (ℕ × Network)
history = (1, answering 503) ∷ (0, answering 200) ∷ (1, answering 503) ∷ []

-- The second goroutine makes its first check, the first one its own, and the second another.
three_checks : Run url_string balancers (length starting.monitored) launched history s3
unfolding start start_targets start_target
three_checks =
    checks 1 (answering 503) launched s1 s3 ((0, answering 200) ∷ (1, answering 503) ∷ [])
      (first 1 (answering 503) launched (omega arith) refl)
      (checks 0 (answering 200) s1 s2 s3 ((1, answering 503) ∷ [])
        (first 0 (answering 200) s1 (omega arith) refl)
        (passes s2 (tick 1 s2) s3 ((1, answering 503) ∷ []) (ticks 1 s2 (omega arith)) (
          checks 1 (answering 503) (tick 1 s2) s3 s3 []
            (another 1 (answering 503) (tick 1 s2) (omega arith) refl refl) (ends s3))))

first_found : first_with url_string (text "http://a") two_targets (0 ∷ 1 ∷ []) ≡ some 0
unfolding first_with ◌==◌
first_found = refl

starting-Assigned :
    (k : ℕ)
    → k < length starting.monitored
    → Assigned url_string balancers both k (status_at starting k) two_targets
unfolding start start_targets start_target
starting-Assigned zero inside = record {
  known = plain_known;
  up = tt;
  found = first_found;
  well = refl;
}
starting-Assigned (suc zero) inside = record {
  known = plain_known;
  up = tt;
  found = second_found;
  well = refl;
}
starting-Assigned (suc (suc k)) inside = absurd (omega arith)

launch-is_healthy_example :
    is_healthy s3.targets 1
    ≡ (status_after (status_at starting 1) (networks_of 1 history)).is_healthy
unfolding start start_targets start_target
launch-is_healthy_example =
    launch-is_healthy url_string balancers services two_targets (λ k. both) (λ k. k) s3 history
      (λ j k j_in k_in differ. differ) starting-Assigned three_checks 1 (omega arith)

abbrev closed : System
closed = close_stop_chan launched

abbrev checked_once : System
checked_once = after_check url_string balancers (answering 503) false 1 closed

-- The second goroutine makes its first check and returns; the first one is still to do so.
unfoldable half_stopped :
    Run url_string balancers 2 closed ((1, answering 503) ∷ []) (finish_monitor 1 checked_once)
half_stopped =
    checks 1 (answering 503) closed checked_once (finish_monitor 1 checked_once) []
      (first 1 (answering 503) closed (omega arith) refl)
      (passes checked_once (finish_monitor 1 checked_once) (finish_monitor 1 checked_once) []
        (leaves 1 checked_once (omega arith) refl refl) (ends (finish_monitor 1 checked_once)))

steps_in_test :
    steps_in url_string balancers 2 closed
      (finish_monitor 1 checked_once)
      ((1, answering 503) ∷ [])
      half_stopped
    ≡ 2
unfolding steps_in half_stopped
steps_in_test = refl

stop-AllFinished_example :
    (steps_in url_string balancers 2 closed
        (finish_monitor 1 checked_once)
        ((1, answering 503) ∷ [])
        half_stopped
      ≤ 3 * 2
        + ticks_in url_string balancers 2 closed
            (finish_monitor 1 checked_once)
            ((1, answering 503) ∷ [])
            half_stopped)
    × (AllFinished url_string balancers 2 (finish_monitor 1 checked_once)
        ⊎ CanGoOn url_string balancers 2 (answering 200) (finish_monitor 1 checked_once))
stop-AllFinished_example =
    stop-AllFinished url_string balancers 2 closed (finish_monitor 1 checked_once)
      ((1, answering 503) ∷ []) (answering 200) half_stopped refl
