-- ===== src/HealthChecker/Loop/Bounded.antt =====
-- Every run of the goroutines once `Stop` has closed the channel.
use corridor.Prelude.{
  ℕ, zero, suc, ◌+◌, ◌*◌, ◌<◌, ◌≤◌, ◌≡◌, refl, ap, ◌∙◌, List, Bool, true, false, arith, eqb,
  eqb_self, Bool-cases, inl, inr, if◌then◌else◌, ◌⊎◌,
}
use corridor.Prelude.Text.{Text}
use corridor.LoadBalancer.Target.{Url}
use corridor.Proxy.{Balancers}
use corridor.HealthChecker.Probe.{Network}
use corridor.HealthChecker.Loop.{
  Phase, entering, waiting, finished, Monitor, System, set_monitor, after_check, finish_monitor,
  Check, first, another, Silent, ticks, leaves, stops, Run, ends, checks, passes,
}
use corridor.HealthChecker.Loop.Stopped.{AllFinished, phase_cases}

-- What a goroutine may still do: its first check, a check for the tick that it has, its return.
abbrev work_of : Phase → Bool → ℕ
work_of entering ticked = if ticked then 3 else 2
work_of waiting ticked = if ticked then 2 else 1
work_of finished ticked = 0

abbrev work : System → ℕ → ℕ
work s k = work_of (s.monitors k).phase (s.monitors k).ticked

abbrev sum_below : (ℕ → ℕ) → ℕ → ℕ
sum_below f zero = 0
sum_below f (suc m) = sum_below f m + f m

sum_below_same :
    (f g : ℕ → ℕ) (m : ℕ) → ((k : ℕ) → k < m → f k ≡ g k) → sum_below f m ≡ sum_below g m
sum_below_same f g zero same = refl
sum_below_same f g (suc m) same =
    let before = sum_below_same f g m (λ k inside. same k (omega arith)) in
    let last = same m (omega arith) in omega arith

-- A sum of which one summand changes.
sum_below_one :
    (f g : ℕ → ℕ) (m j : ℕ)
    → j < m
    → ((k : ℕ) → eqb k j ≡ false → f k ≡ g k)
    → sum_below f m + g j ≡ sum_below g m + f j
sum_below_one f g zero j inside same = absurd (omega arith)
sum_below_one f g (suc m) j inside same = elim (Bool-cases (eqb m j)) [
  | inl last ↦
      let one : m ≡ j = ground arith in
      let before = sum_below_same f g m (λ k below. same k (ground arith)) in
      let mine = ap f one in let its = ap g one in omega arith
  | inr earlier ↦
      let below : j < m = ground arith in
      let before = sum_below_one f g m j below same in let last = same m earlier in omega arith
]

work_of_le : (p : Phase) (b : Bool) → work_of p b ≤ 3
work_of_le entering b = ground arith
work_of_le waiting b = ground arith
work_of_le finished b = omega arith

sum_below_le : (s : System) (m : ℕ) → sum_below (work s) m ≤ 3 * m
sum_below_le s zero = omega arith
sum_below_le s (suc m) =
    let before = sum_below_le s m in
    let last = work_of_le (s.monitors m).phase (s.monitors m).ticked in omega arith

work_ticked : (p : Phase) (b : Bool) → work_of p true ≤ suc (work_of p b)
work_ticked entering b = ground arith
work_ticked waiting b = ground arith
work_ticked finished b = omega arith

work_entering : (b : Bool) → suc (work_of waiting b) ≡ work_of entering b
work_entering true = refl
work_entering false = refl

work_waiting : (b : Bool) → 1 ≤ work_of waiting b
work_waiting b = ground arith

module _ (url_string : Url → Text) (lbs : Balancers) (n : ℕ) where
  -- The steps of the goroutines in a run, and the ticks of their tickers.
  unfoldable pub steps_in :
      (s t : System) (checked : List (ℕ × Network)) → Run url_string lbs n s checked t → ℕ
  steps_in s t checked (ends _) = 0
  steps_in s t checked (checks k net _ mid _ rest step run) = suc (steps_in mid t rest run)
  steps_in s t checked (passes _ mid _ _ (ticks k _ inside) run) = steps_in mid t checked run
  steps_in s t checked (passes _ mid _ _ (leaves k _ inside waits off) run) =
      suc (steps_in mid t checked run)
  steps_in s t checked (passes _ mid _ _ (stops _ on) run) = steps_in mid t checked run

  unfoldable pub ticks_in :
      (s t : System) (checked : List (ℕ × Network)) → Run url_string lbs n s checked t → ℕ
  ticks_in s t checked (ends _) = 0
  ticks_in s t checked (checks k net _ mid _ rest step run) = ticks_in mid t rest run
  ticks_in s t checked (passes _ mid _ _ (ticks k _ inside) run) = suc (ticks_in mid t checked run)
  ticks_in s t checked (passes _ mid _ _ (leaves k _ inside waits off) run) =
      ticks_in mid t checked run
  ticks_in s t checked (passes _ mid _ _ (stops _ on) run) = ticks_in mid t checked run

  set_monitor-work :
      (k : ℕ) (m : Monitor) (s : System)
      → k < n
      → sum_below (work (set_monitor k m s)) n + work s k
        ≡ sum_below (work s) n + work_of m.phase m.ticked
  set_monitor-work k m s inside =
      let t = set_monitor k m s in
      let e = sum_below_one (work t) (work s) n k inside (λ j other. rw other refl) in
      let own : work t k ≡ work_of m.phase m.ticked = rw (eqb_self k) refl in omega arith

  after_check-work :
      (k : ℕ) (net : Network) (b : Bool) (s : System)
      → k < n
      → sum_below (work (after_check url_string lbs net b k s)) n + work s k
        ≡ sum_below (work s) n + work_of waiting b
  after_check-work k net b s inside =
      let t = after_check url_string lbs net b k s in
      let e = sum_below_one (work t) (work s) n k inside (λ j other. rw other refl) in
      let own : work t k ≡ work_of waiting b = rw (eqb_self k) refl in omega arith

  run_bounded :
      (s t : System) (checked : List (ℕ × Network)) (run : Run url_string lbs n s checked t)
      → s.stopped ≡ true
      → steps_in s t checked run + sum_below (work t) n
        ≤ sum_below (work s) n + ticks_in s t checked run
  unfolding steps_in ticks_in
  run_bounded s t checked (ends _) off = omega arith
  run_bounded s t checked (checks k net _ mid _ rest (first _ _ _ inside enters) run) off =
      let later = run_bounded mid t rest run off in
      let b = (s.monitors k).ticked in
      let e = after_check-work k net b s inside in
      let before : work s k ≡ work_of entering b = ap (λ p. work_of p b) enters in
      let less = work_entering b in omega arith
  run_bounded s t checked (checks k net _ mid _ rest (another _ _ _ inside waits ticked) run) off =
      let later = run_bounded mid t rest run off in
      let e = after_check-work k net false s inside in
      let before : work s k ≡ 2 =
        ap (λ p. work_of p (s.monitors k).ticked) waits ∙ ap (work_of waiting) ticked in
      omega arith
  run_bounded s t checked (passes _ mid _ _ (ticks k _ inside) run) off =
      let later = run_bounded mid t checked run off in
      let e = set_monitor-work k (record (s.monitors k) { ticked = true }) s inside in
      let more = work_ticked (s.monitors k).phase (s.monitors k).ticked in omega arith
  run_bounded s t checked (passes _ mid _ _ (leaves k _ inside waits _) run) off =
      let later = run_bounded mid t checked run off in
      let e = set_monitor-work k (record (s.monitors k) { phase = finished }) s inside in
      let before : work s k ≡ work_of waiting (s.monitors k).ticked =
        ap (λ p. work_of p (s.monitors k).ticked) waits in
      let some_left = work_waiting (s.monitors k).ticked in omega arith
  run_bounded s t checked (passes _ mid _ _ (stops _ on) run) off = absurd (cc)

  run_stopped :
      (s t : System) (checked : List (ℕ × Network))
      → Run url_string lbs n s checked t
      → s.stopped ≡ true
      → t.stopped ≡ true
  run_stopped s t checked (ends _) off = off
  run_stopped s t checked (checks k net _ mid _ rest (first _ _ _ i e) run) off =
      run_stopped mid t rest run off
  run_stopped s t checked (checks k net _ mid _ rest (another _ _ _ i e f) run) off =
      run_stopped mid t rest run off
  run_stopped s t checked (passes _ mid _ _ (ticks k _ i) run) off =
      run_stopped mid t checked run off
  run_stopped s t checked (passes _ mid _ _ (leaves k _ i w o) run) off =
      run_stopped mid t checked run off
  run_stopped s t checked (passes _ mid _ _ (stops _ on) run) off =
      run_stopped mid t checked run refl

  -- A goroutine that can make a step of its own: a check, at the given network, or its return.
  abbrev pub CanGoOn : Network → System → Type 0
  CanGoOn net s =
      (k : ℕ) × (k < n)
      × (((u : System) × Check url_string lbs n k net s u)
          ⊎ Silent url_string lbs n s (finish_monitor k s))

  all_or_one :
      (m : ℕ) (net : Network) (s : System)
      → m ≤ n
      → s.stopped ≡ true
      → ((k : ℕ) → k < m → (s.monitors k).phase ≡ finished) ⊎ CanGoOn net s
  all_or_one zero net s room off = inl (λ k none. absurd (omega arith))
  all_or_one (suc m) net s room off = elim (all_or_one m net s (omega arith) off) [
    | inr goes ↦ inr goes
    | inl over ↦ elim (phase_cases url_string lbs n (s.monitors m).phase) [
      | inl enters ↦ inr (m, omega arith, inl (_, first m net s (omega arith) enters))
      | inr (inl waits) ↦ inr (m, omega arith, inr (leaves m s (omega arith) waits off))
      | inr (inr done) ↦ inl (λ k inside. elim (Bool-cases (eqb k m)) [
        | inl last ↦ let one : k ≡ m = ground arith in ap (λ i. (s.monitors i).phase) one ∙ done
        | inr earlier ↦ over k (ground arith)
      ])
    ]
  ]

  -- Once `Stop` has closed the channel, every run of the goroutines, whatever they choose in their
  -- `select`, has at most three steps of each and one more for every tick that comes; and while one
  -- of them has not returned, one can make a step, whatever the network is. So with finitely many
  -- ticks no run goes on for ever, and `Stop`, which waits for all of them, returns.
  pub stop-AllFinished :
      (s t : System) (checked : List (ℕ × Network)) (net : Network)
      (run : Run url_string lbs n s checked t)
      → s.stopped ≡ true
      → (steps_in s t checked run ≤ 3 * n + ticks_in s t checked run)
        × (AllFinished url_string lbs n t ⊎ CanGoOn net t)
  stop-AllFinished s t checked net run off =
      let bounded = run_bounded s t checked run off in
      let most = sum_below_le s n in
      (omega arith, all_or_one n net t (omega arith) (run_stopped s t checked run off))
