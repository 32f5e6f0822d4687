-- ===== src/LoadBalancer/Target.antt =====
-- app/proxy/loadbalancer.go: `UpstreamTarget`, in a store of the objects that the program shares.
-- A lock makes each method one step; the steps of several goroutines follow one another.
use corridor.Prelude.{ℕ, suc, ◌≡◌, Bool, eqb, if◌then◌else◌, arith}
use corridor.Prelude.Int.{ℤ, pos, negsuc, add64}
use corridor.Prelude.Text.{Text}

-- The fields of `url.URL` that the program reads.
pub record Url : Type 0 where
  pub scheme : Text
  pub host : Text
  pub path : Text
  pub raw_query : Text

pub record UpstreamTarget : Type 0 where
  pub url : Url
  pub healthy : Bool
  pub weight : ℤ
  pub active_connections : ℤ

-- The objects allocated so far stand at the addresses below `next`.
pub record Store : Type 0 where
  pub next : ℕ
  pub cell : ℕ → UpstreamTarget

-- A write to one object.
unfoldable pub modify : ℕ → (UpstreamTarget → UpstreamTarget) → Store → Store
modify a f h = record h { cell = λ b. if eqb a b then f (h.cell b) else h.cell b }

-- `&UpstreamTarget{…}`.
unfoldable pub allocate : UpstreamTarget → Store → ℕ × Store
allocate t h =
    (h.next, record { next = suc h.next; cell = λ b. if eqb h.next b then t else h.cell b })

unfoldable pub set_health : Bool → ℕ → Store → Store
unfolding modify
set_health healthy a = modify a (λ t. record t { healthy = healthy })

abbrev pub is_healthy : Store → ℕ → Bool
is_healthy h a = (h.cell a).healthy

unfoldable pub increment_active_connections : ℕ → Store → Store
unfolding modify
increment_active_connections a =
    modify a (λ t. record t { active_connections = add64 t.active_connections (pos 1) })

unfoldable pub decrement_active_connections : ℕ → Store → Store
unfolding modify
decrement_active_connections a =
    modify a (λ t. record t { active_connections = add64 t.active_connections (negsuc 0) })

abbrev pub get_active_connections : Store → ℕ → ℤ
get_active_connections h a = (h.cell a).active_connections

pub is_healthy-set_health :
    (b : Bool) (a c : ℕ) (h : Store)
    → is_healthy (set_health b a h) c ≡ (if eqb a c then b else is_healthy h c)
unfolding set_health
is_healthy-set_health b a c h = ground arith
