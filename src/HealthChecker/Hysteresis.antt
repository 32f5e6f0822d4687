-- ===== src/HealthChecker/Hysteresis.antt =====
-- A target's health changes only after its threshold of equal results in a row.
use mathlib.Core.List.{append_assoc}
use corridor.Prelude.{
  ◌++◌, ℕ, zero, suc, ◌+◌, ◌<◌, ◌≡◌, refl, sym, ◌∙◌, ap, subst, List, [], ◌∷◌, Bool, true, false,
  arith, Bool-cases, inl, inr,
}
use corridor.Prelude.Int.{ℤ, pos, ◌≤ℤ◌}
use corridor.Prelude.Text.{Text}
use corridor.Config.{HealthCheckConfig}
use corridor.HealthChecker.{TargetStatus, initial_status, record_result}

unfoldable pub record_results : List Bool → TargetStatus → TargetStatus
record_results [] s = s
record_results (r ∷ rs) s = record_results rs (record_result r s)

abbrev pub times : ℕ → Bool → List Bool
times zero r = []
times (suc n) r = r ∷ times n r

-- The failing half and the succeeding half of one argument.
failures_end :
    (n : ℕ) (s : TargetStatus)
    → 0 < n
    → s.config.unhealthy_threshold ≤ℤ pos (s.consecutive_failures + n)
    → (record_results (times n false) s).is_healthy ≡ false
unfolding record_results record_result
failures_end zero s some_check enough = absurd (omega arith)
failures_end (suc zero) s some_check enough = ground arith
failures_end (suc (suc n)) s some_check enough =
    failures_end (suc n) (record_result false s) (omega arith) (omega arith)

successes_end :
    (n : ℕ) (s : TargetStatus)
    → 0 < n
    → s.config.healthy_threshold ≤ℤ pos (s.consecutive_successes + n)
    → (record_results (times n true) s).is_healthy ≡ true
unfolding record_results record_result
successes_end zero s some_check enough = absurd (omega arith)
successes_end (suc zero) s some_check enough = ground arith
successes_end (suc (suc n)) s some_check enough =
    successes_end (suc n) (record_result true s) (omega arith) (omega arith)

-- How many equal results in a row bring a health about.
abbrev pub threshold_for : Bool → HealthCheckConfig → ℤ
threshold_for true hc = hc.healthy_threshold
threshold_for false hc = hc.unhealthy_threshold

-- Whatever a target's status, as many equal results in a row as the threshold for that result,
-- and at least one, leave it with the health that they report.
pub record_results_flip :
    (r : Bool) (n : ℕ) (s : TargetStatus)
    → 0 < n
    → threshold_for r s.config ≤ℤ pos n
    → (record_results (times n r) s).is_healthy ≡ r
record_results_flip true n s some_check enough = successes_end n s some_check (omega arith)
record_results_flip false n s some_check enough = failures_end n s some_check (omega arith)

-- A history that holds `n` failures in a row, for an `n` that reaches the threshold.
pub record HasRun (threshold : ℤ) (r : Bool) (rs : List Bool) : Type 0 where
  pub pre : List Bool
  pub count : ℕ
  pub post : List Bool
  pub splits : rs ≡ pre ++ (times count r ++ post)
  pub long : threshold ≤ℤ pos count

times_snoc : (n : ℕ) (r : Bool) (rs : List Bool) → times n r ++ (r ∷ rs) ≡ times (suc n) r ++ rs
times_snoc zero r rs = refl
times_snoc (suc n) r rs = ap (◌∷◌ r) (times_snoc n r rs)

HasRun-before :
    (threshold : ℤ) (r : Bool) (front rs : List Bool)
    → HasRun threshold r rs
    → HasRun threshold r (front ++ rs)
HasRun-before threshold r front rs run = record {
  pre = front ++ run.pre;
  count = run.count;
  post = run.post;
  splits = ap (◌++◌ front) run.splits ∙ sym (append_assoc front run.pre _);
  long = run.long;
}

failing_run :
    (rs : List Bool) (s : TargetStatus)
    → s.is_healthy ≡ true
    → (record_results rs s).is_healthy ≡ false
    → HasRun s.config.unhealthy_threshold false (times s.consecutive_failures false ++ rs)
unfolding record_results record_result
failing_run [] s up down = cc
failing_run (true ∷ rs) s up down =
    let rest = failing_run rs (record_result true s) (ground arith) down in
    HasRun-before _ false (times s.consecutive_failures false) (true ∷ rs)
      (HasRun-before _ false (true ∷ []) rs rest)
failing_run (false ∷ rs) s up down =
    let one_more : s.consecutive_failures + 1 ≡ suc s.consecutive_failures = omega arith in
    let moved = times_snoc s.consecutive_failures false rs in
    elim (Bool-cases (record_result false s).is_healthy) [
      | inl still ↦
          subst (HasRun s.config.unhealthy_threshold false)
            (ap (λ k. times k false ++ rs) one_more ∙ sym moved)
            (failing_run rs (record_result false s) still down)
      | inr flipped ↦ record {
        pre = [];
        count = suc s.consecutive_failures;
        post = rs;
        splits = moved;
        long = ground arith;
      }
    ]

-- A target that the checker starts on is healthy, and checks leave it unhealthy only if among
-- them are failures in a row that reach its unhealthy threshold.
pub record_results_stable :
    (service url : Text) (hc : HealthCheckConfig) (rs : List Bool)
    → (record_results rs (initial_status service url hc)).is_healthy ≡ false
    → HasRun hc.unhealthy_threshold false rs
record_results_stable service url hc rs down =
    failing_run rs (initial_status service url hc) refl down
