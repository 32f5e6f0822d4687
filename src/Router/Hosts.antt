-- ===== src/Router/Hosts.antt =====
-- Which host names a route's host pattern covers.
use corridor.Prelude.{
  ◌≡◌, ◌≢◌, ◌↔◌, inl, inr, sym, ◌∙◌, ap, ◌++◌, true, false, not, ◌&&◌, arith, Bool-cases, length,
  length-append,
}
use corridor.Prelude.Text.{
  Text, text, ◌==◌, has_prefix, has_suffix, eq_iff, has_prefix_iff, has_suffix_iff,
  has_prefix_append, trim_prefix_append,
}
use corridor.Router.Matching.{match_host}

-- A pattern that begins with `*.` covers the names that end in a dot and the base; any other pattern covers itself.
pub data CoversHost (pattern hostname : Text) : Type 0 where
  exact : has_prefix pattern (text "*.") ≡ false → hostname ≡ pattern → CoversHost pattern hostname
  wildcard :
      (base sub : Text)
      → pattern ≡ text "*." ++ base
      → hostname ≡ sub ++ (text "." ++ base)
      → CoversHost pattern hostname

match_host_wildcard :
    (base hostname : Text)
    → match_host (text "*." ++ base) hostname
      ≡ (not (hostname == base) && has_suffix hostname (text "." ++ base))
unfolding match_host
match_host_wildcard base hostname =
    rw (has_prefix_append (text "*.") base, trim_prefix_append (text "*.") base)

match_host_exact :
    (pattern hostname : Text)
    → has_prefix pattern (text "*.") ≡ false
    → match_host pattern hostname ≡ (pattern == hostname)
unfolding match_host
match_host_exact pattern hostname plain = rw plain

match_host_sound :
    (pattern hostname : Text) → match_host pattern hostname ≡ true → CoversHost pattern hostname
match_host_sound pattern hostname h = elim (Bool-cases (has_prefix pattern (text "*."))) [
  | inl wild ↦
      let (base, e) = (has_prefix_iff pattern (text "*.")).0 wild in
      let tests = sym (ap (λ t. match_host t hostname) e ∙ match_host_wildcard base hostname) ∙ h in
      let ends : has_suffix hostname (text "." ++ base) ≡ true = ground arith in
      let (sub, f) = (has_suffix_iff hostname (text "." ++ base)).0 ends in wildcard base sub e f
  | inr plain ↦
      exact plain
        (sym ((eq_iff pattern hostname).0 (sym (match_host_exact pattern hostname plain) ∙ h)))
]

-- A name that ends in a dot and the base is longer than the base.
longer : (base sub : Text) → sub ++ (text "." ++ base) ≢ base
longer base sub e = omega (arith, ap length e, length-append sub (text "." ++ base))

match_host_complete :
    (pattern hostname : Text) → CoversHost pattern hostname → match_host pattern hostname ≡ true
match_host_complete pattern hostname (exact plain e) =
    match_host_exact pattern hostname plain ∙ (eq_iff pattern hostname).1 (sym e)
match_host_complete pattern hostname (wildcard base sub e f) =
    let ends = (has_suffix_iff hostname (text "." ++ base)).1 (sub, f) in
    let apart : hostname ≢ base = λ g. longer base sub (sym f ∙ g) in
    ap (λ t. match_host t hostname) e
    ∙ match_host_wildcard base hostname
    ∙ ground (arith, eq_iff hostname base)

-- A host name matches a pattern exactly when the pattern does not begin with `*.` and is the name,
-- or the pattern is `*.` before a base and the name is some text, which may be empty, before a dot
-- and the base.
pub match_host_iff :
    (pattern hostname : Text) → (match_host pattern hostname ≡ true) ↔ CoversHost pattern hostname
match_host_iff pattern hostname =
    (match_host_sound pattern hostname, match_host_complete pattern hostname)
