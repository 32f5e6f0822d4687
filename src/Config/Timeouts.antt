-- ===== src/Config/Timeouts.antt =====
-- app/config/config.go: `GetDefaultTimeout` at a configuration that is there, and the reading of an
-- optional number in app/proxy/proxy.go and app/server/server.go. Durations are nanoseconds.
use corridor.Prelude.{
  ℕ, ◌*◌, ◌^◌, ◌<◌, ◌≡◌, Option, none, some, true, false, not, arith, if◌then◌else◌, Bool-cases,
  inl, inr,
}
use corridor.Prelude.Int.{
  ℤ, pos, negsuc, ◌<ℤ◌, is_positive, duration, duration_pos, millisecond, second,
}
use corridor.Config.{GlobalConfig}

unfoldable pub get_default_timeout : GlobalConfig → ℤ
get_default_timeout g =
    if not (is_positive g.default_timeout_ms)
    then pos (10 * second)
    else duration millisecond g.default_timeout_ms

-- `x != nil && *x > 0` over a default, in seconds or as a count.
abbrev pub seconds_or : ℤ → Option ℤ → ℤ
seconds_or default none = default
seconds_or default (some n) = if is_positive n then duration second n else default

abbrev pub count_or : ℤ → Option ℤ → ℤ
count_or default none = default
count_or default (some n) = if is_positive n then n else default

-- A setting in seconds that 64 bits of nanoseconds hold.
abbrev pub IsBrief : Option ℤ → Type 0
IsBrief (some (pos n)) = second * n < 2 ^ 63
IsBrief _ = Unit

-- A setting in milliseconds that they hold.
abbrev pub IsBriefMs : ℤ → Type 0
IsBriefMs (pos n) = millisecond * n < 2 ^ 63
IsBriefMs _ = Unit

not_positive : (n : ℕ) → is_positive (negsuc n) ≡ false
not_positive n = ground arith

pub seconds_or_positive :
    (default : ℤ) (o : Option ℤ) → pos 0 <ℤ default → IsBrief o → pos 0 <ℤ seconds_or default o
seconds_or_positive default none up brief = up
seconds_or_positive default (some (negsuc n)) up brief = rw (not_positive n) up
seconds_or_positive default (some (pos n)) up brief = elim (Bool-cases (is_positive (pos n))) [
  | inr zero_or_less ↦ rw zero_or_less up
  | inl positive ↦ rw (positive, duration_pos second n brief) (ground arith)
]

pub count_or_positive :
    (default : ℤ) (o : Option ℤ) → pos 0 <ℤ default → pos 0 <ℤ count_or default o
count_or_positive default none up = up
count_or_positive default (some n) up = ground arith

-- A duration, or half a minute in place of one that is not positive.
abbrev pub or_half_a_minute : ℤ → ℤ
or_half_a_minute d = if not (is_positive d) then pos (30 * second) else d

pub or_half_a_minute_positive : (d : ℤ) → pos 0 <ℤ or_half_a_minute d
or_half_a_minute_positive d = ground arith

-- A default time-out in milliseconds that is positive is one as a duration.
pub get_default_timeout_positive :
    (g : GlobalConfig)
    → IsBriefMs g.default_timeout_ms
    → is_positive g.default_timeout_ms ≡ true
    → pos 0 <ℤ get_default_timeout g
unfolding get_default_timeout
get_default_timeout_positive g brief set = rw set (milliseconds g.default_timeout_ms brief set)
  where
    milliseconds : (n : ℤ) → IsBriefMs n → is_positive n ≡ true → pos 0 <ℤ duration millisecond n
    milliseconds (pos n) fits up = rw (duration_pos millisecond n fits) (ground arith)
    milliseconds (negsuc n) fits up = let none = not_positive n in absurd (cc)
