-- ===== src/Router/Matching.antt =====
-- app/router/router.go: the three tests of a route against a request.
use corridor.Prelude.{List, [], ◌∷◌, ◌++◌, Bool, true, false, not, ◌&&◌, ◌||◌, any, if◌then◌else◌}
use corridor.Prelude.Text.{
  Text, text, ◌==◌, has_prefix, has_suffix, trim_prefix, trim_suffix, contains, before, equal_fold,
}
use corridor.Config.{RouteConfig}

-- What the router reads of an `http.Request`.
pub record Request : Type 0 where
  pub method : Text
  pub host : Text
  pub path : Text

-- The request's host without its port.
unfoldable pub hostname_of : Text → Text
hostname_of host = if contains host b':' then before host b':' else host

-- A route's host pattern, exact or `*.` before a base.
unfoldable pub match_host : Text → Text → Bool
match_host pattern hostname =
    if has_prefix pattern (text "*.")
    then (let base = trim_prefix pattern (text "*.") in
        not (hostname == base) && has_suffix hostname (text "." ++ base))
    else pattern == hostname

unfoldable pub match_method : List Text → Text → Bool
match_method methods method = any (λ m. equal_fold m method) methods

unfoldable pub match_path : Text → Text → Bool
match_path path pattern =
    if has_suffix pattern (text "/*")
    then (let prefix = trim_suffix pattern (text "/*") in
        (path == prefix || has_prefix path (prefix ++ text "/")) || path == pattern)
    else if has_suffix pattern (text "*") && not (has_suffix pattern (text "/*"))
    then has_prefix path (trim_suffix pattern (text "*")) || path == pattern
    else path == pattern

abbrev pub is_blank : Text → Bool
is_blank [] = true
is_blank (_ ∷ _) = false

abbrev pub is_nil : List Text → Bool
is_nil [] = true
is_nil (_ ∷ _) = false

-- The tests in the loop of `ServeHTTP`; a blank host and an empty list of methods match anything.
unfoldable pub match_route : RouteConfig → Request → Bool
match_route r req =
    (is_blank r.host || match_host r.host (hostname_of req.host))
    && ((is_nil r.methods || match_method r.methods req.method)
        && any (λ pattern. match_path req.path pattern) r.paths)
