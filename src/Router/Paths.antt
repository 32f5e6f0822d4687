-- ===== src/Router/Paths.antt =====
-- Which request paths a route's pattern covers.
use corridor.Prelude.{
  ◌≡◌, ◌↔◌, ◌⊎◌, inl, inr, refl, sym, ◌∙◌, ap, ◌++◌, Bool, true, false, ◌||◌, arith, Bool-cases,
}
use corridor.Prelude.Text.{
  Text, text, ◌==◌, has_prefix, has_suffix, trim_suffix, eq_iff, eq_refl, has_prefix_iff,
  has_suffix_iff, has_prefix_append, has_suffix_append, trim_suffix_append,
}
use corridor.Router.Matching.{match_path}
use mathlib.Core.List.{append_assoc}

-- A pattern covers itself; `p/*` covers `p` and all below it; `p*` covers what begins with `p`.
pub data Covers (pattern path : Text) : Type 0 where
  same : path ≡ pattern → Covers pattern path
  base : (p : Text) → pattern ≡ p ++ text "/*" → path ≡ p → Covers pattern path
  below :
      (p rest : Text)
      → pattern ≡ p ++ text "/*"
      → path ≡ (p ++ text "/") ++ rest
      → Covers pattern path
  begins : (p rest : Text) → pattern ≡ p ++ text "*" → path ≡ p ++ rest → Covers pattern path

-- The test of a subtree pattern and of a prefix pattern, by its prefix.
match_path_subtree :
    (path p : Text)
    → match_path path (p ++ text "/*")
      ≡ ((path == p || has_prefix path (p ++ text "/")) || path == p ++ text "/*")
unfolding match_path
match_path_subtree path p = rw (has_suffix_append p (text "/*"), trim_suffix_append p (text "/*"))

match_path_prefix :
    (path p : Text)
    → has_suffix (p ++ text "*") (text "/*") ≡ false
    → match_path path (p ++ text "*") ≡ (has_prefix path p || path == p ++ text "*")
unfolding match_path
match_path_prefix path p plain =
    rw (plain, has_suffix_append p (text "*"), trim_suffix_append p (text "*"))

match_path_plain :
    (path pattern : Text)
    → has_suffix pattern (text "*") ≡ false
    → has_suffix pattern (text "/*") ≡ false
    → match_path path pattern ≡ (path == pattern)
unfolding match_path
match_path_plain path pattern star subtree = rw (subtree, star)

or_cases : (a b : Bool) → (a || b) ≡ true → (a ≡ true) ⊎ (b ≡ true)
or_cases true b h = inl refl
or_cases false b h = inr h

or_right : (a b : Bool) → b ≡ true → (a || b) ≡ true
or_right a b h = ground arith

or_left : (a b : Bool) → a ≡ true → (a || b) ≡ true
or_left a b h = ground arith

-- What each of the three kinds of pattern accepts is covered.
subtree_sound :
    (path pattern p : Text)
    → pattern ≡ p ++ text "/*"
    → match_path path pattern ≡ true
    → Covers pattern path
subtree_sound path pattern p e h =
    let tests = sym (ap (match_path path) e ∙ match_path_subtree path p) ∙ h in
    elim (or_cases _ (path == p ++ text "/*") tests) [
      | inl inside ↦ elim (or_cases (path == p) _ inside) [
        | inl here ↦ base p e ((eq_iff path p).0 here)
        | inr under ↦
            let (rest, f) = (has_prefix_iff path (p ++ text "/")).0 under in below p rest e f
      ]
      | inr literal ↦ same ((eq_iff path _).0 literal ∙ sym e)
    ]

prefix_sound :
    (path pattern p : Text)
    → pattern ≡ p ++ text "*"
    → has_suffix pattern (text "/*") ≡ false
    → match_path path pattern ≡ true
    → Covers pattern path
prefix_sound path pattern p e plain h =
    let plain' = sym (ap (λ t. has_suffix t (text "/*")) e) ∙ plain in
    let tests = sym (ap (match_path path) e ∙ match_path_prefix path p plain') ∙ h in
    elim (or_cases (has_prefix path p) (path == p ++ text "*") tests) [
      | inl begin ↦ let (rest, f) = (has_prefix_iff path p).0 begin in begins p rest e f
      | inr literal ↦ same ((eq_iff path _).0 literal ∙ sym e)
    ]

match_path_sound : (path pattern : Text) → match_path path pattern ≡ true → Covers pattern path
match_path_sound path pattern h = elim (Bool-cases (has_suffix pattern (text "/*"))) [
  | inl subtree ↦
      let (p, e) = (has_suffix_iff pattern (text "/*")).0 subtree in
      subtree_sound path pattern p e h
  | inr other ↦ elim (Bool-cases (has_suffix pattern (text "*"))) [
    | inl star ↦
        let (p, e) = (has_suffix_iff pattern (text "*")).0 star in
        prefix_sound path pattern p e other h
    | inr plain ↦
        same ((eq_iff path pattern).0 (sym (match_path_plain path pattern plain other) ∙ h))
  ]
]

-- A pattern accepts its own text, whatever its kind.
match_path_same : (path : Text) → match_path path path ≡ true
unfolding match_path
match_path_same path = ground (arith, eq_refl path)

subtree_accepts :
    (path p : Text)
    → (path == p || has_prefix path (p ++ text "/")) ≡ true
    → match_path path (p ++ text "/*") ≡ true
subtree_accepts path p h = match_path_subtree path p ∙ or_left _ _ h

-- `p*` accepts what begins with `p`, also where it is read as a subtree pattern.
prefix_complete : (p rest : Text) → match_path (p ++ rest) (p ++ text "*") ≡ true
prefix_complete p rest = elim (Bool-cases (has_suffix (p ++ text "*") (text "/*"))) [
  | inl subtree ↦
      let (q, e) = (has_suffix_iff (p ++ text "*") (text "/*")).0 subtree in
      let regroup : q ++ text "/*" ≡ (q ++ text "/") ++ text "*" =
        sym (append_assoc q (text "/") (text "*")) in
      let cut : p ≡ q ++ text "/" =
        sym (trim_suffix_append p (text "*"))
        ∙ ap (λ t. trim_suffix t (text "*")) (e ∙ regroup)
        ∙ trim_suffix_append (q ++ text "/") (text "*") in
      ap (match_path (p ++ rest)) e
      ∙ subtree_accepts (p ++ rest) q (
          or_right _ _ (
            ap (λ t. has_prefix (t ++ rest) (q ++ text "/")) cut
            ∙ has_prefix_append (q ++ text "/") rest))
  | inr plain ↦ match_path_prefix (p ++ rest) p plain ∙ or_left _ _ (has_prefix_append p rest)
]

match_path_complete : (path pattern : Text) → Covers pattern path → match_path path pattern ≡ true
match_path_complete path pattern (same e) = ap (match_path path) (sym e) ∙ match_path_same path
match_path_complete path pattern (base p e f) =
    ap (match_path path) e ∙ subtree_accepts path p (or_left _ _ ((eq_iff path p).1 f))
match_path_complete path pattern (below p rest e f) =
    ap (match_path path) e
    ∙ subtree_accepts path p (or_right _ _ ((has_prefix_iff path (p ++ text "/")).1 (rest, f)))
match_path_complete path pattern (begins p rest e f) =
    ap (match_path path) e ∙ ap (λ t. match_path t (p ++ text "*")) f ∙ prefix_complete p rest

-- A path matches a pattern exactly when it is the pattern's text, or the pattern is `p/*` and the
-- path is `p` or begins with `p/`, or the pattern is `p*` and the path begins with `p`.
pub match_path_iff : (path pattern : Text) → (match_path path pattern ≡ true) ↔ Covers pattern path
match_path_iff path pattern = (match_path_sound path pattern, match_path_complete path pattern)
