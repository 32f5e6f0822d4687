-- ===== src/HealthChecker/Loop/Stopped.antt =====
-- `Stop`, which waits until every goroutine has returned.
use corridor.Prelude.{
  ℕ, zero, suc, ◌<◌, ◌≤◌, ◌≡◌, refl, subst, ◌∙◌, ap, List, [], ◌∷◌, ◌++◌, Bool, true, arith, eqb,
  eqb_self, Bool-cases, inl, inr, length, length-append, ◌⊎◌,
}
use corridor.LoadBalancer.Target.{Url}
use corridor.Prelude.Text.{Text}
use corridor.Proxy.{Balancers}
use corridor.HealthChecker.Probe.{Network}
use corridor.HealthChecker.Loop.{
  Phase, entering, waiting, finished, System, after_check, finish_monitor, tick, first, another,
  Silent, ticks, leaves, stops, Run, ends, checks, passes,
}

module _ (url_string : Url → Text) (lbs : Balancers) (n : ℕ) where
  abbrev Finished : ℕ → System → Type 0
  Finished k s = (s.monitors k).phase ≡ finished

  abbrev pub AllFinished : System → Type 0
  AllFinished s = (k : ℕ) → k < n → Finished k s

  -- How a goroutine comes to its end once the channel is closed.
  record Ended (k : ℕ) (s t : System) : Type 0 where
    end : Finished k t
    others : (j : ℕ) → Finished j s → Finished j t
    closed : t.stopped ≡ true

  finish_others : (k j : ℕ) (s : System) → Finished j s → Finished j (finish_monitor k s)
  finish_others k j s over = elim (Bool-cases (eqb j k)) [
    | inl same ↦ rw same refl
    | inr differ ↦ rw differ over
  ]

  finish_monitor-Ended : (k : ℕ) (s : System) → s.stopped ≡ true → Ended k s (finish_monitor k s)
  finish_monitor-Ended k s off = record {
    end = rw (eqb_self k) refl;
    others = λ j over. finish_others k j s over;
    closed = off;
  }

  tick_others : (k j : ℕ) (s : System) → Finished j s → Finished j (tick k s)
  tick_others k j s over = elim (Bool-cases (eqb j k)) [
    | inl same ↦
        let one : k ≡ j = ground arith in rw same (ap (λ i. (s.monitors i).phase) one ∙ over)
    | inr differ ↦ rw differ over
  ]

  check_others :
      (k j : ℕ) (net : Network) (b : Bool) (s : System)
      → (s.monitors k).phase ≡ entering
      → Finished j s
      → Finished j (after_check url_string lbs net b k s)
  check_others k j net b s enters over = elim (Bool-cases (eqb j k)) [
    | inl same ↦
        let one : j ≡ k = ground arith in
        let both = ap (λ i. (s.monitors i).phase) one in absurd (cc)
    | inr differ ↦ rw differ over
  ]

  -- What is reached by a run with at most `bound` checks.
  abbrev Reaches : ℕ → System → (System → Type 0) → Type 0
  Reaches bound s P =
      (t : System) × (checked : List (ℕ × Network)) × Run url_string lbs n s checked t
      × (length checked ≤ bound)
      × P t

  pub phase_cases : (p : Phase) → (p ≡ entering) ⊎ (p ≡ waiting) ⊎ (p ≡ finished)
  phase_cases entering = inl refl
  phase_cases waiting = inr (inl refl)
  phase_cases finished = inr (inr refl)

  -- A goroutine makes the first check that it may still owe, and returns.
  goroutine_ends :
      (k : ℕ) (net : Network) (s : System) → k < n → s.stopped ≡ true → Reaches 1 s (Ended k s)
  goroutine_ends k net s k_in off = elim (phase_cases (s.monitors k).phase) [
    | inl enters ↦
        let b = (s.monitors k).ticked in
        let mid = after_check url_string lbs net b k s in
        let waits : (mid.monitors k).phase ≡ waiting = rw (eqb_self k) refl in
        let done = finish_monitor-Ended k mid off in
        (
          finish_monitor k mid,
          (k, net) ∷ [],
          checks k net s mid (finish_monitor k mid) [] (first k net s k_in enters) (
              passes mid (finish_monitor k mid) (finish_monitor k mid) []
                (leaves k mid k_in waits off) (ends (finish_monitor k mid))),
          omega arith,
          record {
            end = done.end;
            others = λ j over. done.others j (check_others k j net b s enters over);
            closed = off;
          },
        )
    | inr (inl waits) ↦ (
      finish_monitor k s,
      [],
      passes s (finish_monitor k s) (finish_monitor k s) [] (leaves k s k_in waits off)
          (ends (finish_monitor k s)),
      omega arith,
      finish_monitor-Ended k s off,
    )
    | inr (inr over) ↦
        (s, [], ends s, omega arith, record { end = over; others = λ j e. e; closed = off })
  ]

  Run-append :
      (s t u : System) (xs ys : List (ℕ × Network))
      → Run url_string lbs n s xs t
      → Run url_string lbs n t ys u
      → Run url_string lbs n s (xs ++ ys) u
  Run-append s t u xs ys (ends _) after = after
  Run-append s t u xs ys (checks k net _ mid _ rest step run) after =
      checks k net s mid u (rest ++ ys) step (Run-append mid t u rest ys run after)
  Run-append s t u xs ys (passes _ mid _ _ step run) after =
      passes s mid u (xs ++ ys) step (Run-append mid t u xs ys run after)

  first_end :
      (m : ℕ) (net : Network) (s : System)
      → m ≤ n
      → s.stopped ≡ true
      → Reaches m s (λ t. (t.stopped ≡ true) × ((k : ℕ) → k < m → Finished k t))
  first_end zero net s room off =
      (s, [], ends s, omega arith, (off, λ k none. absurd (omega arith)))
  first_end (suc m) net s room off =
      let (t, xs, run, few, (closed, before)) = first_end m net s (omega arith) off in
      let (u, ys, on, one, ended) = goroutine_ends m net t (omega arith) closed in
      (
        u,
        xs ++ ys,
        Run-append s t u xs ys run on,
        (let both = length-append xs ys in omega arith),
        (
          ended.closed,
          λ k inside. elim (Bool-cases (eqb k m)) [
            | inl last ↦ let one : m ≡ k = ground arith in subst (λ i. Finished i u) one ended.end
            | inr earlier ↦ let below : k < m = ground arith in ended.others k (before k below)
          ],
        ),
      )

  -- Once `Stop` has closed the channel, the goroutines can come to their ends, so that `Stop`
  -- returns, with at most as many checks on the way as there are goroutines, whatever network those
  -- meet.
  stop_reaches : (s : System) (net : Network) → s.stopped ≡ true → Reaches n s AllFinished
  stop_reaches s net off =
      let (t, xs, run, few, (closed, over)) = first_end n net s (omega arith) off in
      (t, xs, run, few, over)

  idle :
      (s t : System)
      → Silent url_string lbs n s t
      → AllFinished s
      → AllFinished t × (t.targets ≡ s.targets)
  idle s t (ticks j _ j_in) over = (λ k k_in. tick_others j k s (over k k_in), refl)
  idle s t (leaves j _ j_in waits off) over = (λ k k_in. finish_others j k s (over k k_in), refl)
  idle s t (stops _ on) over = (over, refl)

  -- When `Stop` has returned, nothing that may still happen makes a check or changes a target.
  pub Run-AllFinished :
      (s t : System) (checked : List (ℕ × Network))
      → Run url_string lbs n s checked t
      → AllFinished s
      → (checked ≡ []) × (t.targets ≡ s.targets)
  Run-AllFinished s t checked (ends _) over = (refl, refl)
  Run-AllFinished s t checked (checks j net _ mid _ rest (first _ _ _ j_in enters) run) over =
      let done = over j j_in in absurd (cc)
  Run-AllFinished s t checked (checks j net _ mid _ rest (another _ _ _ j_in waits ticked) run)
        over =
      let done = over j j_in in absurd (cc)
  Run-AllFinished s t checked (passes _ mid _ _ step run) over =
      let (still, kept) = idle s mid step over in
      let (none, same) = Run-AllFinished mid t checked run still in (none, same ∙ kept)
