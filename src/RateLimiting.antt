-- ===== src/RateLimiting.antt =====
-- app/plugins/ratelimiting.go: the rate limiter. Times and durations are nanoseconds since the
-- start; their differences stay below the 292 years at which Go's saturate.
-- `net.SplitHostPort` is the parameter `split_host_port`, of which the host is used.
pub mod Window
pub mod Clients
pub mod Ascending
pub mod Fairness
use corridor.Prelude.{
  ℕ, zero, suc, ◌+◌, ◌*◌, ◌/◌, List, [], ◌∷◌, ◌++◌, Option, none, some, Bool, true, false, leb, ltb,
  eqb, length, if◌then◌else◌,
}
use corridor.Prelude.Int.{ℤ, pos, negsuc, add64, leb_ℤ, ltb_ℤ}
use corridor.Prelude.Text.{Text, text, ◌==◌, to_lower}
use corridor.Prelude.Dict.{Dict, lookup, insert, delete}
use corridor.Config.Yaml.{Value, as_string, as_int}

abbrev pub second : ℕ
second = 10 * 1000 * 1000 * 100

abbrev pub minute : ℕ
minute = 60 * second

-- The settings of `RateLimitingPlugin`.
pub record RateLimitingPlugin : Type 0 where
  pub requests_per_window : ℤ
  pub window : ℕ
  pub strategy : Text

-- `clientStore`, a map to pointers, and the logs that they point to; the logs allocated so far
-- stand at the addresses below `next`.
pub record ClientStore : Type 0 where
  pub next : ℕ
  pub clients : Dict ℕ
  pub timestamps : ℕ → List ℕ

-- A positive number under a key.
abbrev positive : Option ℤ → Option ℤ
positive none = none
positive (some n) = if ltb_ℤ (pos 0) n then some n else none

abbrev strategy_or_default : Option Text → Text
strategy_or_default none = text "ip-address"
strategy_or_default (some s) = if s == [] then text "ip-address" else to_lower s

-- `Init`: the route's limit a minute, or a second, or the default.
unfoldable pub init : Dict Value → Dict Value → RateLimitingPlugin
init plugin_config global =
    let strategy = strategy_or_default (as_string (lookup (text "strategy") global)) in
    elim (positive (as_int (lookup (text "requests_per_minute") plugin_config))) [
      | some rpm ↦ record { requests_per_window = rpm; window = minute; strategy = strategy }
      | none ↦ elim (positive (as_int (lookup (text "requests_per_second") plugin_config))) [
        | some rps ↦ record { requests_per_window = rps; window = second; strategy = strategy }
        | none ↦ record { requests_per_window = pos 60; window = minute; strategy = strategy }
      ]
    ]

-- The timestamps that are not older than the window.
unfoldable pub prune : ℕ → ℕ → List ℕ → List ℕ
prune window now [] = []
prune window now (ts ∷ log) =
    let rest = prune window now log in if leb now (ts + window) then ts ∷ rest else rest

-- The section under the log's lock: whether the request is let through, and the log after it.
unfoldable pub check : RateLimitingPlugin → ℕ → List ℕ → Bool × List ℕ
check p now log =
    let valid = prune p.window now log in
    if leb_ℤ p.requests_per_window (pos (length valid))
    then (false, valid)
    else (true, valid ++ (now ∷ []))

-- A client's log, made if there is none.
unfoldable pub get_or_create : Text → ClientStore → ℕ × ClientStore
get_or_create client st = elim (lookup client st.clients) [
  | some a ↦ (a, st)
  | none ↦ (
    st.next,
    record {
      next = suc st.next;
      clients = insert client st.next st.clients;
      timestamps = λ b. if eqb st.next b then [] else st.timestamps b;
    },
  )
]

-- What the handler does with a request; the number is the limit that the headers report, then
-- what remains of it or the seconds to wait.
pub data Response : Type 0 where
  forbidden misconfigured : Response
  too_many_requests : ℤ → ℕ → Response
  forwards : ℤ → ℤ → Response

abbrev minus : ℤ → ℕ → ℤ
minus n zero = n
minus n (suc k) = add64 n (negsuc k)

abbrev pub verdict : RateLimitingPlugin → Bool × List ℕ → Response
verdict p (false, log) = too_many_requests p.requests_per_window (p.window / second)
verdict p (true, log) = forwards p.requests_per_window (minus p.requests_per_window (length log))

-- The check of the client whose log is at an address.
unfoldable pub limit : RateLimitingPlugin → ℕ → ℕ × ClientStore → Response × ClientStore
limit p now (a, st) =
    let out = check p now (st.timestamps a) in
    (verdict p out, record st { timestamps = λ b. if eqb a b then out.1 else st.timestamps b })

abbrev pub identified : RateLimitingPlugin → ℕ → ClientStore → Option Text → Response × ClientStore
identified p now st none = (forbidden, st)
identified p now st (some ip) =
    if ip == [] then (forbidden, st) else limit p now (get_or_create ip st)

-- The handler of `Handle`, at the time `now`, run as one step.
unfoldable pub handle :
    (Text → Option Text) → RateLimitingPlugin → Text → ℕ → ClientStore → Response × ClientStore
handle split_host_port p remote_addr now st =
    if p.strategy == text "ip-address"
    then identified p now st (split_host_port remote_addr)
    else (misconfigured, st)

abbrev pub last? : List ℕ → Option ℕ
last? [] = none
last? (ts ∷ []) = some ts
last? (ts ∷ us ∷ log) = last? (us ∷ log)

-- Whether the last request is older than ten windows.
abbrev pub is_expired : ℕ → ℕ → Option ℕ → Bool
is_expired window now none = false
is_expired window now (some ts) = ltb (ts + 10 * window) now

-- One round of `cleanupOldClients`, over the map's entries.
unfoldable pub sweep : ℕ → ℕ → (ℕ → List ℕ) → Dict ℕ → Dict ℕ
sweep window now timestamps [] = []
sweep window now timestamps ((client, a) ∷ m) =
    let rest = sweep window now timestamps m in
    if is_expired window now (last? (timestamps a)) then rest else (client, a) ∷ rest

unfoldable pub cleanup_old_clients : RateLimitingPlugin → ℕ → ClientStore → ClientStore
cleanup_old_clients p now st = record st { clients = sweep p.window now st.timestamps st.clients }
