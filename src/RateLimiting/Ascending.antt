-- ===== src/RateLimiting/Ascending.antt =====
-- The order of the times in a log.
use corridor.Prelude.{
  ℕ, ◌+◌, ◌≤◌, ◌<◌, ◌≡◌, ◌∙◌, List, [], ◌∷◌, ◌++◌, some, arith, leb, Bool-cases, inl, inr, length,
}
use corridor.Prelude.Int.{pos, leb_ℤ}
use corridor.RateLimiting.{RateLimitingPlugin, prune, check, last?}
use corridor.RateLimiting.Window.{count_in}

-- Times in order, between two times.
abbrev pub Ascending : ℕ → List ℕ → ℕ → Type 0
Ascending from [] to = from ≤ to
Ascending from (s ∷ log) to = (from ≤ s) × Ascending s log to

pub Ascending-le : (from to : ℕ) (log : List ℕ) → Ascending from log to → from ≤ to
Ascending-le from to [] up = up
Ascending-le from to (s ∷ log) (le, up) = omega (arith, Ascending-le s to log up)

pub Ascending-lower :
    (from from' to : ℕ) (log : List ℕ)
    → from' ≤ from
    → Ascending from log to
    → Ascending from' log to
Ascending-lower from from' to [] le up = omega arith
Ascending-lower from from' to (s ∷ log) le (lt, up) = (omega arith, up)

pub Ascending-append :
    (from to now : ℕ) (log : List ℕ)
    → to ≤ now
    → Ascending from log to
    → Ascending from (log ++ (now ∷ [])) now
Ascending-append from to now [] le up = (omega arith, omega arith)
Ascending-append from to now (s ∷ log) le (lt, up) = (lt, Ascending-append s to now log le up)

pub Ascending-raise :
    (from to now : ℕ) (log : List ℕ) → to ≤ now → Ascending from log to → Ascending from log now
Ascending-raise from to now [] le up = omega arith
Ascending-raise from to now (s ∷ log) le (lt, up) = (lt, Ascending-raise s to now log le up)

pub Ascending-prune :
    (window now from to : ℕ) (log : List ℕ)
    → Ascending from log to
    → Ascending from (prune window now log) to
unfolding prune
Ascending-prune window now from to [] up = up
Ascending-prune window now from to (s ∷ log) (le, up) =
    let ih = Ascending-prune window now s to log up in
    elim (Bool-cases (leb now (s + window))) [
      | inl recent ↦ rw recent (le, ih)
      | inr old ↦ rw old (Ascending-lower s from to _ le ih)
    ]

pub Ascending-check :
    (p : RateLimitingPlugin) (to now : ℕ) (log : List ℕ)
    → to ≤ now
    → Ascending 0 log to
    → Ascending 0 (check p now log).1 now
unfolding check
Ascending-check p to now log le up =
    let pruned = Ascending-prune p.window now 0 to log up in
    elim (Bool-cases (leb_ℤ p.requests_per_window (pos (length (prune p.window now log))))) [
      | inl full ↦ rw full (Ascending-raise 0 to now _ le pruned)
      | inr room ↦ rw room (Ascending-append 0 to now _ le pruned)
    ]

last?_le : (s to l : ℕ) (log : List ℕ) → Ascending s log to → last? (s ∷ log) ≡ some l → s ≤ l
last?_le s to l [] up e = ground arith
last?_le s to l (u ∷ log) (le, up) e = omega (arith, last?_le u to l log up e)

count_in_before :
    (window t s : ℕ) (log : List ℕ) → s < t → count_in window t (s ∷ log) ≡ count_in window t log
unfolding count_in
count_in_before window t s log early = ground arith

-- A log whose last entry is before a window has nothing in it.
pub count_in-expired :
    (window t from to l : ℕ) (log : List ℕ)
    → Ascending from log to
    → last? log ≡ some l
    → l < t
    → count_in window t log ≡ 0
unfolding count_in
count_in-expired window t from to l [] up e old = absurd (cc)
count_in-expired window t from to l (s ∷ []) up e old = ground arith
count_in-expired window t from to l (s ∷ u ∷ log) (le, up) e old =
    let first = last?_le s to l (u ∷ log) up e in
    count_in_before window t s (u ∷ log) (omega arith)
    ∙ count_in-expired window t s to l (u ∷ log) up e old
