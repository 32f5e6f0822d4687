-- ===== src/RateLimiting/Clients.antt =====
-- The log of each client in the store, before and after the limiter's steps.
use corridor.Prelude.{
  ℕ, suc, ◌<◌, ◌≡◌, ◌≢◌, refl, sym, ◌∙◌, ap, List, [], ◌∷◌, Option, none, some, Bool, true, false,
  arith, eqb, if◌then◌else◌, Bool-cases, Option-cases, inl, inr,
}
use corridor.Prelude.Text.{Text, ◌==◌, eq_iff, eq_refl}
use corridor.Prelude.Dict.{Dict, lookup, insert, lookup-insert, lookup-insert_self, lookup-nil}
use corridor.RateLimiting.{
  RateLimitingPlugin, ClientStore, Response, get_or_create, check, verdict, limit, last?,
  is_expired, sweep, cleanup_old_clients, forwards,
}

abbrev pub log_at : ClientStore → Option ℕ → List ℕ
log_at st none = []
log_at st (some a) = st.timestamps a

-- The log of a client, empty for one that has none.
abbrev pub log_of : Text → ClientStore → List ℕ
log_of c st = log_at st (lookup c st.clients)

-- A map without shadowed entries.
abbrev pub Keys : Dict ℕ → Type 0
Keys [] = Unit
Keys ((c, a) ∷ m) = (lookup c m ≡ none) × Keys m

-- Each client has one log and no two share one; all are allocated.
pub record IsAllotted (st : ClientStore) : Type 0 where
  pub keys : Keys st.clients
  pub made : (c : Text) (a : ℕ) → lookup c st.clients ≡ some a → a < st.next
  pub own :
      (c d : Text) (a : ℕ) → lookup c st.clients ≡ some a → lookup d st.clients ≡ some a → c ≡ d

Keys-insert : (c : Text) (a : ℕ) (m : Dict ℕ) → Keys m → Keys (insert c a m)
unfolding insert
Keys-insert c a [] keys = (lookup-nil c, tt)
Keys-insert c a ((d, b) ∷ m) (fresh, keys) = elim (Bool-cases (d == c)) [
  | inl same ↦ let e = (eq_iff d c).0 same in rw same (ap (λ k. lookup k m) (sym e) ∙ fresh, keys)
  | inr other ↦
      let apart : (c == d) ≡ false = ground (arith, eq_iff c d, eq_iff d c) in
      rw other (lookup-insert c d a m ∙ rw apart fresh, Keys-insert c a m keys)
]

module _ (window now : ℕ) (timestamps : ℕ → List ℕ) where
  -- What the sweep leaves of a client's entry.
  abbrev pub sift : Option ℕ → Option ℕ
  sift none = none
  sift (some a) = if is_expired window now (last? (timestamps a)) then none else some a

  pub lookup-sweep :
      (c : Text) (m : Dict ℕ)
      → Keys m
      → lookup c (sweep window now timestamps m) ≡ sift (lookup c m)
  unfolding sweep lookup
  lookup-sweep c [] keys = refl
  lookup-sweep c ((d, a) ∷ m) (fresh, keys) =
      let ih = lookup-sweep c m keys in
      elim (Bool-cases (d == c)) [
        | inl same ↦
            let missing : lookup c m ≡ none =
              ap (λ k. lookup k m) (sym ((eq_iff d c).0 same)) ∙ fresh in
            let gone = ih ∙ ap sift missing in
            elim (Bool-cases (is_expired window now (last? (timestamps a)))) [
              | inl old ↦ rw (old, same, gone) (rw old refl)
              | inr recent ↦ rw (recent, same) (rw recent refl)
            ]
        | inr other ↦ elim (Bool-cases (is_expired window now (last? (timestamps a)))) [
          | inl old ↦ rw (old, other) ih
          | inr recent ↦ rw (recent, other) ih
        ]
      ]

  Keys-sweep : (m : Dict ℕ) → Keys m → Keys (sweep window now timestamps m)
  unfolding sweep
  Keys-sweep [] keys = tt
  Keys-sweep ((d, a) ∷ m) (fresh, keys) =
      elim (Bool-cases (is_expired window now (last? (timestamps a)))) [
        | inl old ↦ rw old (Keys-sweep m keys)
        | inr recent ↦ rw recent (lookup-sweep d m keys ∙ ap sift fresh, Keys-sweep m keys)
      ]

  sift_kept : (o : Option ℕ) (a : ℕ) → sift o ≡ some a → o ≡ some a
  sift_kept none a e = absurd (cc)
  sift_kept (some b) a e = ground arith

pub cleanup-IsAllotted :
    (p : RateLimitingPlugin) (now : ℕ) (st : ClientStore)
    → IsAllotted st
    → IsAllotted (cleanup_old_clients p now st)
unfolding cleanup_old_clients
cleanup-IsAllotted p now st w = record {
  keys = Keys-sweep p.window now st.timestamps st.clients w.keys;
  made = λ c a e. w.made c a (was c a e);
  own = λ c d a e f. w.own c d a (was c a e) (was d a f);
}
  where
    was :
        (c : Text) (a : ℕ)
        → lookup c (sweep p.window now st.timestamps st.clients) ≡ some a
        → lookup c st.clients ≡ some a
    was c a e =
        sift_kept p.window now st.timestamps _ a
          (sym (lookup-sweep p.window now st.timestamps c st.clients w.keys) ∙ e)

-- A client's log has been asked for.
pub record Obtained (c : Text) (st : ClientStore) (out : ℕ × ClientStore) : Type 0 where
  pub allotted : IsAllotted out.1
  pub entered : lookup c out.1.clients ≡ some out.0
  pub same : out.1.timestamps out.0 ≡ log_of c st
  pub others : (d : Text) → c ≢ d → log_of d out.1 ≡ log_of d st

-- The store with a new log.
abbrev created : Text → ClientStore → ClientStore
created c st = record {
  next = suc st.next;
  clients = insert c st.next st.clients;
  timestamps = λ b. if eqb st.next b then [] else st.timestamps b;
}

lookup_other : (c d : Text) (a : ℕ) (m : Dict ℕ) → c ≢ d → lookup d (insert c a m) ≡ lookup d m
lookup_other c d a m other = ground (arith, lookup-insert c d a m, eq_iff c d)

old_log :
    (c : Text) (st : ClientStore) (o : Option ℕ)
    → ((a : ℕ) → o ≡ some a → a < st.next)
    → log_at (created c st) o ≡ log_at st o
old_log c st none made = refl
old_log c st (some a) made = let below = made a refl in ground arith

created-IsAllotted :
    (c : Text) (st : ClientStore)
    → IsAllotted st
    → lookup c st.clients ≡ none
    → IsAllotted (created c st)
created-IsAllotted c st w missing = record {
  keys = Keys-insert c st.next st.clients w.keys;
  made = λ d a e. ground (arith, lookup-insert c d st.next st.clients, w.made d a);
  own = λ d e a f g. ground (
    arith,
    lookup-insert c d st.next st.clients,
    lookup-insert c e st.next st.clients,
    eq_iff c d,
    eq_iff c e,
    w.own d e a,
    w.made d a,
    w.made e a,
  );
}

created-Obtained :
    (c : Text) (st : ClientStore)
    → IsAllotted st
    → lookup c st.clients ≡ none
    → Obtained c st (st.next, created c st)
created-Obtained c st w missing = record {
  allotted = created-IsAllotted c st w missing;
  entered = lookup-insert_self c st.next st.clients;
  same = ground (arith, ap (log_at st) missing);
  others = λ d other.
      ap (log_at (created c st)) (lookup_other c d st.next st.clients other)
      ∙ old_log c st (lookup d st.clients) (w.made d);
}

get_or_create-Obtained :
    (c : Text) (st : ClientStore) → IsAllotted st → Obtained c st (get_or_create c st)
unfolding get_or_create
get_or_create-Obtained c st w = elim (Option-cases (lookup c st.clients)) [
  | inr (a, found) ↦
      rw (found, get_or_create)
        (record {
          allotted = w;
          entered = found;
          same = sym (ap (log_at st) found);
          others = λ d other. refl;
        })
  | inl missing ↦ rw (missing, get_or_create) (created-Obtained c st w missing)
]

abbrev pub is_forwarded : Response → Bool
is_forwarded (forwards most left) = true
is_forwarded _ = false

verdict-is_forwarded :
    (p : RateLimitingPlugin) (out : Bool × List ℕ) → is_forwarded (verdict p out) ≡ out.0
verdict-is_forwarded p (true, log) = refl
verdict-is_forwarded p (false, log) = refl

-- A request of the client has been checked against its own log, and no other one is changed.
pub record Checked (p : RateLimitingPlugin) (c : Text) (now : ℕ) (st : ClientStore)
    (out : Response × ClientStore) : Type 0 where
  pub allotted : IsAllotted out.1
  pub answered : is_forwarded out.0 ≡ (check p now (log_of c st)).0
  pub logged : log_of c out.1 ≡ (check p now (log_of c st)).1
  pub others : (d : Text) → c ≢ d → log_of d out.1 ≡ log_of d st

-- A write to one log.
abbrev written : ℕ → List ℕ → ClientStore → ClientStore
written a log st = record st { timestamps = λ b. if eqb a b then log else st.timestamps b }

log_of-written :
    (c d : Text) (a : ℕ) (log : List ℕ) (st : ClientStore)
    → IsAllotted st
    → lookup c st.clients ≡ some a
    → log_of d (written a log st) ≡ (if c == d then log else log_of d st)
log_of-written c d a log st w entered = elim (Bool-cases (c == d)) [
  | inl same ↦
      let found : lookup d st.clients ≡ some a =
        ap (λ k. lookup k st.clients) (sym ((eq_iff c d).0 same)) ∙ entered in
      rw (same, found) (ground arith)
  | inr other ↦ elim (Option-cases (lookup d st.clients)) [
    | inl missing ↦ rw (other, missing) refl
    | inr (b, found) ↦
        let apart : eqb a b ≡ false = ground (arith, eq_iff c d, w.own c d a) in
        rw (other, found) (rw apart refl)
  ]
]

limit-Checked :
    (p : RateLimitingPlugin) (c : Text) (now : ℕ) (st : ClientStore) (out : ℕ × ClientStore)
    → Obtained c st out
    → Checked p c now st (limit p now out)
unfolding limit
limit-Checked p c now st (a, st1) o =
    let same = ap (check p now) o.same in
    let log = log_of-written c c a (check p now (st1.timestamps a)).1 st1 o.allotted o.entered in
    record {
      allotted = record { keys = o.allotted.keys; made = o.allotted.made; own = o.allotted.own };
      answered = verdict-is_forwarded p (check p now (st1.timestamps a)) ∙ ap (λ r. r.0) same;
      logged = log ∙ rw (eq_refl c) (ap (λ r. r.1) same);
      others = λ d other.
          let differ : (c == d) ≡ false = ground (arith, eq_iff c d) in
          log_of-written c d a (check p now (st1.timestamps a)).1 st1 o.allotted o.entered
          ∙ rw differ (o.others d other);
    }

-- The handler's check of an identified client.
pub request-Checked :
    (p : RateLimitingPlugin) (c : Text) (now : ℕ) (st : ClientStore)
    → IsAllotted st
    → Checked p c now st (limit p now (get_or_create c st))
request-Checked p c now st w = limit-Checked p c now st _ (get_or_create-Obtained c st w)

-- A clean-up empties a client's log if its last entry is expired, and leaves it alone otherwise.
pub log_of-cleanup :
    (p : RateLimitingPlugin) (c : Text) (now : ℕ) (st : ClientStore)
    → IsAllotted st
    → log_of c (cleanup_old_clients p now st)
      ≡ (if is_expired p.window now (last? (log_of c st)) then [] else log_of c st)
unfolding cleanup_old_clients
log_of-cleanup p c now st w =
    let left = lookup-sweep p.window now st.timestamps c st.clients w.keys in
    elim (Option-cases (lookup c st.clients)) [
      | inl missing ↦ rw (left, missing) refl
      | inr (a, found) ↦ elim (Bool-cases (is_expired p.window now (last? (st.timestamps a)))) [
        | inl old ↦ rw (left, found) (rw old refl)
        | inr recent ↦ rw (left, found) (rw recent refl)
      ]
    ]
