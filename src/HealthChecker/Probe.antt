-- ===== src/HealthChecker/Probe.antt =====
-- app/healthchecker/healthchecker.go: `performCheck`, up to the result that it reports.
use corridor.Prelude.{
  ℕ, ◌*◌, [], Option, none, some, Bool, false, ◌&&◌, ◌||◌, leb, ◌++◌, if◌then◌else◌,
}
use corridor.Prelude.Int.{ℤ, pos, is_positive, duration, second}
use corridor.Prelude.Text.{Text, text, ◌==◌, has_prefix}
use corridor.Config.{HealthCheckConfig}
use corridor.LoadBalancer.Target.{Url}

-- `url.Parse`, the resolution of a path against a base, whether a request can be made for a URL,
-- and the status code that a request with a timeout in nanoseconds brings, if one does.
pub record Network : Type 0 where
  pub url_parse : Text → Option Url
  pub resolve : Url → Text → Text
  pub can_request : Text → Bool
  pub get : Text → ℤ → Option ℕ

unfoldable pub probe_path : HealthCheckConfig → Text
probe_path hc = if hc.ready == [] then hc.live else hc.ready

abbrev is_absolute : Text → Bool
is_absolute p = has_prefix p (text "http://") || has_prefix p (text "https://")

-- A path gets the slash that it lacks.
unfoldable pub rooted : Text → Text
rooted p = if is_absolute p || has_prefix p (text "/") then p else text "/" ++ p

abbrev probe_timeout : HealthCheckConfig → ℤ
probe_timeout hc =
    let timeout = duration second hc.timeout in
    if is_positive timeout then timeout else pos (5 * second)

abbrev is_success : Option ℕ → Bool
is_success none = false
is_success (some code) = leb 200 code && leb code 299

-- `none` where `performCheck` returns without a result.
unfoldable pub perform_check : Network → Text → HealthCheckConfig → Option Bool
perform_check net target_url hc =
    if probe_path hc == [] then none else (elim (net.url_parse target_url) [
      | none ↦ none
      | some base ↦
          let path = rooted (probe_path hc) in
          let url = if is_absolute path then path else net.resolve base path in
          if net.can_request url
          then some (is_success (net.get url (probe_timeout hc)))
          else some false
    ])
