-- ===== src/RateLimiting/Fairness.antt =====
-- The limiter's promise, over any sequence of requests and clean-ups.
use corridor.Prelude.{
  ℕ, suc, ap, leb, ◌-◌, ◌+◌, ◌≤◌, ◌<◌, ◌≡◌, ◌≢◌, refl, sym, ◌∙◌, subst, List, [], ◌∷◌, Option, none,
  some, Bool, true, false, arith, ltb, if◌then◌else◌, Bool-cases, Option-cases, inl, inr, length,
  ◌&&◌,
}
use corridor.Prelude.Int.{pos}
use corridor.Prelude.Text.{Text, text, ◌==◌, eq_iff}
use corridor.Prelude.Dict.{lookup-nil}
use corridor.RateLimiting.{
  RateLimitingPlugin, ClientStore, Response, prune, check, get_or_create, limit, identified, handle,
  last?, is_expired, cleanup_old_clients,
}
use corridor.RateLimiting.Window.{count_in, counts, check-Held, counted_cons, nothing}
use corridor.RateLimiting.Clients.{
  IsAllotted, log_of, is_forwarded, Checked, request-Checked, cleanup-IsAllotted, log_of-cleanup,
}
use corridor.RateLimiting.Ascending.{Ascending, Ascending-raise, Ascending-check, count_in-expired}

-- What happens to the store: a request from an address, or a clean-up, at a time.
pub data Event : Type 0 where
  request : Text → ℕ → Event
  cleanup : ℕ → Event

abbrev pub time_of : Event → ℕ
time_of (request remote_addr now) = now
time_of (cleanup now) = now

-- Events in the order of their times, from a time on.
abbrev pub Timely : ℕ → List Event → Type 0
Timely from [] = Unit
Timely from (e ∷ es) = (from ≤ time_of e) × Timely (time_of e) es

abbrev is_from : Text → Option Text → Bool
is_from c none = false
is_from c (some ip) = ip == c

abbrev pub no_clients : ClientStore
no_clients = record { next = 0; clients = []; timestamps = λ a. [] }

module _ (split_host_port : Text → Option Text) (p : RateLimitingPlugin) where
  -- The times at which a client's requests are let through.
  unfoldable pub let_through : Text → List Event → ClientStore → List ℕ
  let_through c [] st = []
  let_through c (request remote_addr now ∷ es) st =
      let out = handle split_host_port p remote_addr now st in
      let rest = let_through c es out.1 in
      if is_from c (split_host_port remote_addr) && is_forwarded out.0 then now ∷ rest else rest
  let_through c (cleanup now ∷ es) st = let_through c es (cleanup_old_clients p now st)

module _ (p : RateLimitingPlugin) (most t : ℕ) (limited : p.requests_per_window ≡ pos most)
    (c : Text) where
  -- `k` requests of the window have been let through, and are logged while it is open.
  record Tracked (from k : ℕ) (st : ClientStore) : Type 0 where
    allotted : IsAllotted st
    ascending : Ascending 0 (log_of c st) from
    few : k ≤ most
    logged : from ≤ t + p.window → k ≤ count_in p.window t (log_of c st)

  -- Another client's request, or one that is refused at once.
  Tracked-same :
      (from now k : ℕ) (st st' : ClientStore)
      → from ≤ now
      → IsAllotted st'
      → log_of c st' ≡ log_of c st
      → Tracked from k st
      → Tracked now k st'
  Tracked-same from now k st st' later w same tr = record {
    allotted = w;
    ascending =
        subst (λ l. Ascending 0 l now) (sym same) (Ascending-raise 0 from now _ later tr.ascending);
    few = tr.few;
    logged = λ still. subst (λ l. k ≤ count_in p.window t l) (sym same) (tr.logged (omega arith));
  }

  Tracked-Checked :
      (from now k : ℕ) (st : ClientStore) (out : Response × ClientStore)
      → from ≤ now
      → Checked p c now st out
      → Tracked from k st
      → Tracked now (k + counts p most t limited (is_forwarded out.0) now) out.1
  Tracked-Checked from now k st out later ck tr =
      let held = check-Held p most t limited (log_of c st) from now k later tr.few tr.logged in
      record {
        allotted = ck.allotted;
        ascending =
            subst (λ l. Ascending 0 l now) (sym ck.logged)
              (Ascending-check p from now _ later tr.ascending);
        few = rw ck.answered held.few;
        logged = λ still. rw (ck.answered, ck.logged) (held.logged still);
      }

  Tracked-cleanup :
      (from now k : ℕ) (st : ClientStore)
      → from ≤ now
      → Tracked from k st
      → Tracked now k (cleanup_old_clients p now st)
  Tracked-cleanup from now k st later tr =
      let same = log_of-cleanup p c now st tr.allotted in
      let w = cleanup-IsAllotted p now st tr.allotted in
      elim (Option-cases (last? (log_of c st))) [
        | inl blank ↦ Tracked-same from now k st _ later w (same ∙ rw blank refl) tr
        | inr (l, e) ↦ elim (Bool-cases (is_expired p.window now (some l))) [
          | inl old ↦
              let cleared : log_of c (cleanup_old_clients p now st) ≡ [] =
                same ∙ rw (e, old) refl in
              record {
                allotted = w;
                ascending = subst (λ log. Ascending 0 log now) (sym cleared) (omega arith);
                few = tr.few;
                logged = λ still.
                    let before : l < t = ground arith in
                    let zero_left =
                      count_in-expired p.window t 0 from l (log_of c st) tr.ascending e before in
                    let held = tr.logged (omega arith) in omega arith;
              }
          | inr recent ↦ Tracked-same from now k st _ later w (same ∙ rw (e, recent) refl) tr
        ]
      ]

  idle :
      (now k : ℕ) (b : Bool) (st : ClientStore)
      → b ≡ false
      → Tracked now k st
      → Tracked now (k + counts p most t limited b now) st
  idle now k b st refused tr =
      rw refused (let same : k + 0 ≡ k = omega arith in subst (λ n. Tracked now n st) (sym same) tr)

  module _ (split_host_port : Text → Option Text) where
    -- Whether a request is the client's own and is let through.
    abbrev own_pass : Text → ℕ → ClientStore → Bool
    own_pass remote_addr now st =
        is_from c (split_host_port remote_addr)
        && is_forwarded (handle split_host_port p remote_addr now st).0

    Tracked-identified :
        (from now k : ℕ) (st : ClientStore) (o : Option Text)
        → from ≤ now
        → Tracked from k st
        → Tracked now
            (k
              + counts p most t limited (is_from c o && is_forwarded (identified p now st o).0) now)
            (identified p now st o).1
    Tracked-identified from now k st none later tr =
        idle now k false st refl (Tracked-same from now k st st later tr.allotted refl tr)
    Tracked-identified from now k st (some ip) later tr = elim (Bool-cases (ip == [])) [
      | inl blank ↦ rw blank (
          idle now k (ip == c && false) st (ground arith)
            (Tracked-same from now k st st later tr.allotted refl tr))
      | inr given ↦
          let ck = request-Checked p ip now st tr.allotted in
          elim (Bool-cases (ip == c)) [
            | inl mine ↦
                let e = (eq_iff ip c).0 mine in
                rw (given, mine)
                  (Tracked-Checked from now k st (limit p now (get_or_create ip st)) later
                    (subst (λ d. Checked p d now st (limit p now (get_or_create ip st))) e ck) tr)
            | inr other ↦
                let apart : ip ≢ c = ground (arith, eq_iff ip c) in
                rw (given, other)
                  (idle now k false _ refl
                    (Tracked-same from now k st _ later ck.allotted (ck.others c apart) tr))
          ]
    ]

    Tracked-handle :
        (from now k : ℕ) (st : ClientStore) (remote_addr : Text)
        → from ≤ now
        → Tracked from k st
        → Tracked now
            (k + counts p most t limited (own_pass remote_addr now st) now)
            (handle split_host_port p remote_addr now st).1
    unfolding handle
    Tracked-handle from now k st remote_addr later tr =
        elim (Bool-cases (p.strategy == text "ip-address")) [
          | inl supported ↦
              rw supported (Tracked-identified from now k st (split_host_port remote_addr) later tr)
          | inr unsupported ↦ rw unsupported (
              idle now k (is_from c (split_host_port remote_addr) && false) st (ground arith)
                (Tracked-same from now k st st later tr.allotted refl tr))
        ]

    let_through_after :
        (es : List Event) (st : ClientStore) (from k : ℕ)
        → Timely from es
        → Tracked from k st
        → k + count_in p.window t (let_through split_host_port p c es st) ≤ most
    unfolding let_through
    let_through_after [] st from k timely tr =
        let none_left = nothing p most t limited in omega (arith, tr.few)
    let_through_after (cleanup now ∷ es) st from k (later, timely) tr =
        let_through_after es (cleanup_old_clients p now st) now k timely
          (Tracked-cleanup from now k st later tr)
    let_through_after (request remote_addr now ∷ es) st from k (later, timely) tr =
        let rest =
          let_through_after es (handle split_host_port p remote_addr now st).1 now
            (k + counts p most t limited (own_pass remote_addr now st) now) timely
            (Tracked-handle from now k st remote_addr later tr) in
        let later_ones =
          let_through split_host_port p c es (handle split_host_port p remote_addr now st).1 in
        let total : Bool → Type 0 =
          λ b. k + counts p most t limited b now + count_in p.window t later_ones ≤ most in
        elim (Bool-cases (own_pass remote_addr now st)) [
          | inl passes ↦
              let with_it : total true = subst total passes rest in
              rw passes (omega (arith, counted_cons p most t limited now later_ones))
          | inr refused ↦
              let without : total false = subst total refused rest in rw refused (omega arith)
        ]

pub no_clients-IsAllotted : IsAllotted no_clients
no_clients-IsAllotted = record {
  keys = tt;
  made = λ c a e. let missing = lookup-nil {V = ℕ} c in absurd (cc);
  own = λ c d a e f. let missing = lookup-nil {V = ℕ} c in absurd (cc);
}

-- Over any requests and clean-ups in the order of their times, from an empty store, no client is
-- let through more often than the limit within one window, whenever the window begins. A request
-- is the client's if its address splits off the client's host; every run of the handler and every
-- clean-up is one step.
pub let_through-count_in :
    (split_host_port : Text → Option Text) (p : RateLimitingPlugin) (most : ℕ) (c : Text)
    (es : List Event) (t : ℕ)
    → p.requests_per_window ≡ pos most
    → Timely 0 es
    → count_in p.window t (let_through split_host_port p c es no_clients) ≤ most
let_through-count_in split_host_port p most c es t limited timely =
    let all =
      let_through_after p most t limited c split_host_port es no_clients 0 0 timely (record {
        allotted = no_clients-IsAllotted;
        ascending = rw (lookup-nil {V = ℕ} c) (omega arith);
        few = omega arith;
        logged = λ still. omega arith;
      }) in
    omega arith

-- The logged times that a moment is at most a window after.
unfoldable pub still_within : ℕ → ℕ → List ℕ → ℕ
still_within window now [] = 0
still_within window now (ts ∷ log) =
    let rest = still_within window now log in if leb (now - ts) window then suc rest else rest

length-prune :
    (window now : ℕ) (log : List ℕ) → length (prune window now log) ≡ still_within window now log
unfolding prune still_within
length-prune window now [] = refl
length-prune window now (ts ∷ log) = elim (Bool-cases (leb now (ts + window))) [
  | inl recent ↦
      let near : leb (now - ts) window ≡ true = ground arith in
      rw (recent, near) (ap suc (length-prune window now log))
  | inr old ↦
      let far : leb (now - ts) window ≡ false = ground arith in
      rw (old, far) (length-prune window now log)
]

check-room :
    (p : RateLimitingPlugin) (most now : ℕ) (log : List ℕ)
    → p.requests_per_window ≡ pos most
    → (check p now log).0 ≡ ltb (still_within p.window now log) most
unfolding check
check-room p most now log limited =
    let counted = length-prune p.window now log in ground (arith, limited, counted)

-- In a store whose clients have a log each, a request of a client that the limiter can tell is
-- let through exactly when fewer of the client's logged times than the limit are at most the
-- window ago.
pub handle_forwards :
    (split_host_port : Text → Option Text) (p : RateLimitingPlugin) (most : ℕ)
    (c remote_addr : Text) (now : ℕ) (st : ClientStore)
    → IsAllotted st
    → p.requests_per_window ≡ pos most
    → p.strategy ≡ text "ip-address"
    → split_host_port remote_addr ≡ some c
    → c ≢ []
    → is_forwarded (handle split_host_port p remote_addr now st).0
      ≡ ltb (still_within p.window now (log_of c st)) most
unfolding handle
handle_forwards split_host_port p most c remote_addr now st w limited supported from_c named =
    let told = (eq_iff p.strategy (text "ip-address")).1 supported in
    let given : (c == []) ≡ false = ground (arith, eq_iff c []) in
    rw (told, from_c)
      (rw given
        ((request-Checked p c now st w).answered ∙ check-room p most now (log_of c st) limited))
