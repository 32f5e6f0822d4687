-- ===== src/Proxy/Joining.antt =====
-- app/proxy/proxy.go: `singleJoiningSlash` and the director's query.
use mathlib.Core.List.{append_assoc}
use corridor.Prelude.{
  ◌≡◌, ◌≢◌, refl, [], ◌∷◌, ◌++◌, Bool, true, false, not, ◌&&◌, arith, if◌then◌else◌,
}
use corridor.Prelude.Text.{
  Text, text, ◌==◌, has_prefix, has_suffix, eq_iff, has_prefix_append, has_suffix_append,
}

abbrev pub after_first : Text → Text
after_first [] = []
after_first (c ∷ s) = s

unfoldable pub single_joining_slash : Text → Text → Text
single_joining_slash a b =
    let aslash = has_suffix a (text "/") in
    let bslash = has_prefix b (text "/") in
    if aslash && bslash
    then a ++ after_first b
    else if not aslash && not bslash
    then (if b == [] then a else a ++ (text "/" ++ b))
    else a ++ b

-- `targetURL.RawQuery + req.URL.RawQuery`, with `&` between two that are not empty.
unfoldable pub join_query : Text → Text → Text
join_query target req =
    if target == []
    then target ++ req
    else if req == []
    then target ++ req
    else target ++ (text "&" ++ req)

-- Whether or not the base ends in a slash and the path begins with one, the two are joined by one
-- slash.
pub single_joining_slash_one :
    (base path : Text) (a_slash b_slash : Bool)
    → has_suffix base (text "/") ≡ false
    → has_prefix path (text "/") ≡ false
    → path ≢ []
    → single_joining_slash
        (if a_slash then base ++ text "/" else base)
        (if b_slash then text "/" ++ path else path)
      ≡ base ++ (text "/" ++ path)
unfolding single_joining_slash
single_joining_slash_one base path true true plain bare some_path =
    rw (has_suffix_append base (text "/"), has_prefix_append (text "/") path)
      (append_assoc base (text "/") path)
single_joining_slash_one base path true false plain bare some_path =
    rw (has_suffix_append base (text "/"), bare) (append_assoc base (text "/") path)
single_joining_slash_one base path false true plain bare some_path =
    rw (plain, has_prefix_append (text "/") path) refl
single_joining_slash_one base path false false plain bare some_path =
    let given : (path == []) ≡ false = ground (arith, eq_iff path []) in
    rw (plain, bare, given) refl
