-- ===== src/HealthChecker/Loop.antt =====
-- app/healthchecker/healthchecker.go: the goroutines of `monitorTarget` and `Stop`, as steps on what
-- they share. A goroutine's number is its place in the order of the start. A check is one step, as
-- it holds the status's lock and changes the proxy's targets once at most.
pub mod Independent
pub mod Stopped
pub mod Launched
pub mod Bounded
use corridor.Prelude.{ℕ, ◌*◌, ◌<◌, ◌≡◌, List, [], ◌∷◌, Bool, true, false, eqb, if◌then◌else◌}
use corridor.Prelude.Int.{ℤ, pos, is_positive, duration, second}
use corridor.Config.{HealthCheckConfig}
use corridor.LoadBalancer.Target.{Url, Store}
use corridor.Prelude.Text.{Text}
use corridor.Proxy.{Balancers}
use corridor.HealthChecker.Probe.{Network}
use corridor.HealthChecker.{TargetStatus, check_target}

-- The time between the ticks.
abbrev pub check_interval : HealthCheckConfig → ℤ
check_interval hc =
    let interval = duration second hc.interval in
    if is_positive interval then interval else pos (30 * second)

-- Before the first check, in the `select` of the loop, and returned.
pub data Phase : Type 0 where
  entering waiting finished : Phase

-- A goroutine, and whether its ticker's channel, which has room for one, holds a tick.
pub record Monitor : Type 0 where
  pub status : TargetStatus
  pub phase : Phase
  pub ticked : Bool

-- The goroutines by their numbers, the proxy's targets, and whether `stopChan` is closed.
pub record System : Type 0 where
  pub monitors : ℕ → Monitor
  pub targets : Store
  pub stopped : Bool

abbrev pub set_monitor : ℕ → Monitor → System → System
set_monitor k m s = record s { monitors = λ j. if eqb j k then m else s.monitors j }

abbrev pub tick : ℕ → System → System
tick k s = set_monitor k (record (s.monitors k) { ticked = true }) s

abbrev pub finish_monitor : ℕ → System → System
finish_monitor k s = set_monitor k (record (s.monitors k) { phase = finished }) s

abbrev pub close_stop_chan : System → System
close_stop_chan s = record s { stopped = true }

module _ (url_string : Url → Text) (lbs : Balancers) where
  -- After a check a goroutine is in its `select`, with a tick or none.
  abbrev pub after_check : Network → Bool → ℕ → System → System
  after_check net ticked k s = record s {
    monitors = λ j.
        if eqb j k
        then record {
          status = (check_target url_string lbs net ((s.monitors k).status, s.targets)).0;
          phase = waiting;
          ticked = ticked;
        }
        else s.monitors j;
    targets = (check_target url_string lbs net ((s.monitors k).status, s.targets)).1;
  }

  module _ (n : ℕ) where
    -- A check by one of the `n` goroutines: the first one, or the one for a tick.
    pub data Check : ℕ → Network → System → System → Type 0 where
      first :
          (k : ℕ) (net : Network) (s : System)
          → k < n
          → (s.monitors k).phase ≡ entering
          → Check k net s (after_check net (s.monitors k).ticked k s)
      another :
          (k : ℕ) (net : Network) (s : System)
          → k < n
          → (s.monitors k).phase ≡ waiting
          → (s.monitors k).ticked ≡ true
          → Check k net s (after_check net false k s)

    -- The steps without a check: a tick, the end of a loop, and `Stop`.
    pub data Silent : System → System → Type 0 where
      ticks : (k : ℕ) (s : System) → k < n → Silent s (tick k s)
      leaves :
          (k : ℕ) (s : System)
          → k < n
          → (s.monitors k).phase ≡ waiting
          → s.stopped ≡ true
          → Silent s (finish_monitor k s)
      stops : (s : System) → s.stopped ≡ false → Silent s (close_stop_chan s)

    -- A run, with its checks in order: who made each, and what the network was.
    pub data Run : System → List (ℕ × Network) → System → Type 0 where
      ends : (s : System) → Run s [] s
      checks :
          (k : ℕ) (net : Network) (s t u : System) (checked : List (ℕ × Network))
          → Check k net s t
          → Run t checked u
          → Run s ((k, net) ∷ checked) u
      passes :
          (s t u : System) (checked : List (ℕ × Network))
          → Silent s t
          → Run t checked u
          → Run s checked u
