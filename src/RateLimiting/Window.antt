-- ===== src/RateLimiting/Window.antt =====
-- One check of a client's log, and the requests of one window.
use corridor.Prelude.{
  ℕ, suc, ◌+◌, ◌≤◌, ◌<◌, ◌≡◌, refl, List, [], ◌∷◌, ◌++◌, Bool, true, false, ◌&&◌, arith, leb,
  length, if◌then◌else◌, Bool-cases, inl, inr,
}
use corridor.Prelude.Int.{pos, leb_ℤ}
use corridor.RateLimiting.{RateLimitingPlugin, prune, check}

-- How many of the times are in the window that begins at `t`.
unfoldable pub count_in : ℕ → ℕ → List ℕ → ℕ
count_in window t [] = 0
count_in window t (s ∷ times) =
    let rest = count_in window t times in if leb t s && leb s (t + window) then suc rest else rest

count_in-append :
    (window t : ℕ) (xs ys : List ℕ)
    → count_in window t (xs ++ ys) ≡ count_in window t xs + count_in window t ys
unfolding count_in
count_in-append window t [] ys = omega arith
count_in-append window t (x ∷ xs) ys = ground (arith, count_in-append window t xs ys)

pub count_in_le : (window t : ℕ) (log : List ℕ) → count_in window t log ≤ length log
unfolding count_in
count_in_le window t [] = omega arith
count_in_le window t (s ∷ log) = ground (arith, count_in_le window t log)

-- A prune while the window is open keeps what the window holds.
count_in-prune :
    (window t now : ℕ) (log : List ℕ)
    → now ≤ t + window
    → count_in window t (prune window now log) ≡ count_in window t log
unfolding count_in prune
count_in-prune window t now [] still = refl
count_in-prune window t now (s ∷ log) still = ground (arith, count_in-prune window t now log still)

module _ (p : RateLimitingPlugin) (most t : ℕ) (limited : p.requests_per_window ≡ pos most) where
  abbrev pub counted : List ℕ → ℕ
  counted = count_in p.window t

  pub nothing : counted [] ≡ 0
  unfolding count_in
  nothing = refl

  abbrev pub inside : ℕ → ℕ
  inside now = counted (now ∷ [])

  pub counted_cons : (now : ℕ) (times : List ℕ) → counted (now ∷ times) ≡ inside now + counted times
  unfolding count_in
  counted_cons now times = ground arith

  inside_still : (now : ℕ) → t + p.window < now → inside now ≡ 0
  unfolding count_in
  inside_still now late = ground arith

  inside_le : (now : ℕ) → inside now ≤ 1
  unfolding count_in
  inside_le now = ground arith

  -- The limit lets a request through only below it.
  room_below :
      (log : List ℕ) → leb_ℤ p.requests_per_window (pos (length log)) ≡ false → length log < most
  room_below log room = ground (arith, limited)

  -- Another request fits, in the window or after it.
  one_more :
      (now k : ℕ) (log : List ℕ)
      → k ≤ most
      → (now ≤ t + p.window → k ≤ counted log)
      → length log < most
      → k + inside now ≤ most
  one_more now k log few logged below = elim (Bool-cases (leb now (t + p.window))) [
    | inl early ↦
        let still : now ≤ t + p.window = ground arith in
        let held = logged still in omega (arith, count_in_le p.window t log, inside_le now)
    | inr late ↦
        let after : t + p.window < now = ground arith in omega (arith, inside_still now after)
  ]

  abbrev pub counts : Bool → ℕ → ℕ
  counts false now = 0
  counts true now = inside now

  -- Of the window's requests `k` have been let through before, and after the check one more if it
  -- says so: never more than the limit, and while the window is open the log holds them all.
  pub record Held (now k : ℕ) (out : Bool × List ℕ) : Type 0 where
    pub few : k + counts out.0 now ≤ most
    pub logged : now ≤ t + p.window → k + counts out.0 now ≤ counted out.1

  pub check-Held :
      (log : List ℕ) (from now k : ℕ)
      → from ≤ now
      → k ≤ most
      → (from ≤ t + p.window → k ≤ counted log)
      → Held now k (check p now log)
  unfolding check
  check-Held log from now k later few logged =
      let valid = prune p.window now log in
      let kept : now ≤ t + p.window → k ≤ counted valid = λ still.
        let same = count_in-prune p.window t now log still in
        let before = logged (omega arith) in omega arith in
      elim (Bool-cases (leb_ℤ p.requests_per_window (pos (length valid)))) [
        | inl full ↦
            rw full (record { few = omega arith; logged = λ still. omega (arith, kept still) })
        | inr room ↦ rw room (record {
          few = one_more now k valid few kept (room_below valid room);
          logged = λ still.
              let held = kept still in omega (arith, count_in-append p.window t valid (now ∷ []));
        })
      ]
