-- ===== src/Prelude/Text.antt =====
-- Go strings as lists of bytes, and what the program uses of the package `strings`.
-- Case is folded on the ASCII letters; the other bytes are left as they are.
use Prim.Native.Char.{code}
use Prim.Native.Nat.{ℕ, ◌+◌, ◌-◌, ◌≤◌}
use Prim.Native.String.{String}
use mathlib.Core.Path.{◌≡◌, refl, sym, ap, ◌∙◌}
use mathlib.Core.Logic.{◌↔◌}
use mathlib.Core.Bool.{Bool, true, false, ◌&&◌, ◌||◌}
use mathlib.Core.List.{List, [], ◌∷◌, ◌++◌, map}
use native.Mathlib.Omega.{arith}
use corridor.Prelude.Tests.{leb, eqb, if◌then◌else◌, le→leb}
use corridor.Prelude.Lists.{
  length, take, drop, length-append, drop_append, take_append, take-append-drop,
}

abbrev pub Text : Type 0
Text = List ℕ

-- The bytes of an ASCII literal.
abbrev pub text : String → Text
text String.[] = []
text (String.◌∷◌ c s) = code c ∷ text s

infix 50 ◌==◌
unfoldable pub ◌==◌ : Text → Text → Bool
◌==◌ [] [] = true
◌==◌ [] (d ∷ t) = false
◌==◌ (c ∷ s) [] = false
◌==◌ (c ∷ s) (d ∷ t) = eqb c d && (s == t)

pub eq_iff : (s t : Text) → ((s == t) ≡ true) ↔ (s ≡ t)
unfolding ◌==◌
eq_iff [] [] = ground arith
eq_iff [] (d ∷ t) = ground arith
eq_iff (c ∷ s) [] = ground arith
eq_iff (c ∷ s) (d ∷ t) = ground (arith, eq_iff s t)

pub eq_refl : (s : Text) → (s == s) ≡ true
eq_refl s = (eq_iff s s).1 refl

-- `strings.HasPrefix(s, p)`.
unfoldable pub has_prefix : Text → Text → Bool
has_prefix s [] = true
has_prefix [] (d ∷ p) = false
has_prefix (c ∷ s) (d ∷ p) = eqb c d && has_prefix s p

-- `strings.HasSuffix(s, p)`: the length guard, then the comparison of the tail.
unfoldable pub has_suffix : Text → Text → Bool
unfolding ◌==◌
has_suffix s p = leb (length p) (length s) && (drop (length s - length p) s == p)

-- `strings.TrimPrefix(s, p)` and `strings.TrimSuffix(s, p)`.
unfoldable pub trim_prefix : Text → Text → Text
unfolding has_prefix
trim_prefix s p = if has_prefix s p then drop (length p) s else s

unfoldable pub trim_suffix : Text → Text → Text
unfolding has_suffix
trim_suffix s p = if has_suffix s p then take (length s - length p) s else s

-- `strings.Contains(s, p)` at a pattern of one byte.
unfoldable pub contains : Text → ℕ → Bool
contains [] b = false
contains (c ∷ s) b = eqb c b || contains s b

-- `strings.Split(s, sep)[0]` at a separator of one byte: what stands before the first one.
unfoldable pub before : Text → ℕ → Text
before [] b = []
before (c ∷ s) b = if eqb c b then [] else c ∷ before s b

abbrev lower : ℕ → ℕ
lower c = if leb b'A' c && leb c b'Z' then c + 32 else c

-- `strings.ToLower(s)`.
unfoldable pub to_lower : Text → Text
to_lower s = map lower s

abbrev upper : ℕ → ℕ
upper c = if leb b'a' c && leb c b'z' then c - 32 else c

-- `strings.ToUpper(s)`.
unfoldable pub to_upper : Text → Text
to_upper s = map upper s

-- `strings.EqualFold(s, t)`.
unfoldable pub equal_fold : Text → Text → Bool
unfolding to_lower ◌==◌
equal_fold s t = to_lower s == to_lower t

-- The prefixes are exactly the texts that something completes; so for suffixes.
has_prefix_sound : (s p : Text) → has_prefix s p ≡ true → (r : Text) × (s ≡ p ++ r)
unfolding has_prefix
has_prefix_sound s [] h = (s, refl)
has_prefix_sound [] (d ∷ p) h = absurd (cc)
has_prefix_sound (c ∷ s) (d ∷ p) h =
    let found = has_prefix_sound s p (ground arith) in (found.0, ground (arith, found.1))

pub has_prefix_append : (p r : Text) → has_prefix (p ++ r) p ≡ true
unfolding has_prefix
has_prefix_append [] r = refl
has_prefix_append (d ∷ p) r = ground (arith, has_prefix_append p r)

pub has_prefix_iff : (s p : Text) → (has_prefix s p ≡ true) ↔ ((r : Text) × (s ≡ p ++ r))
has_prefix_iff s p = (has_prefix_sound s p, λ (r, e). rw e (has_prefix_append p r))

drop_append_sub : (r p : Text) → drop (length (r ++ p) - length p) (r ++ p) ≡ p
drop_append_sub r p =
    let shorter : length (r ++ p) - length p ≡ length r = omega (arith, length-append r p) in
    rw shorter (drop_append r p)

pub has_suffix_append : (r p : Text) → has_suffix (r ++ p) p ≡ true
unfolding has_suffix
has_suffix_append r p =
    let fits : length p ≤ length (r ++ p) = omega (arith, length-append r p) in
    rw (drop_append_sub r p, eq_refl p, le→leb _ _ fits)

pub has_suffix_iff : (s p : Text) → (has_suffix s p ≡ true) ↔ ((r : Text) × (s ≡ r ++ p))
unfolding has_suffix
has_suffix_iff s p = (to, λ (r, e). rw e (has_suffix_append r p))
  where
    to :
        (leb (length p) (length s) && (drop (length s - length p) s == p)) ≡ true
        → (r : Text) × (s ≡ r ++ p)
    to h =
        let cut = length s - length p in
        let same : drop cut s ≡ p = (eq_iff _ _).0 (ground arith) in
        (take cut s, sym (take-append-drop cut s) ∙ ap (λ t. take cut s ++ t) same)

pub trim_suffix_append : (r p : Text) → trim_suffix (r ++ p) p ≡ r
unfolding trim_suffix
trim_suffix_append r p =
    let shorter : length (r ++ p) - length p ≡ length r = omega (arith, length-append r p) in
    rw (has_suffix_append r p, shorter) (take_append r p)

pub trim_prefix_append : (p r : Text) → trim_prefix (p ++ r) p ≡ r
unfolding trim_prefix
trim_prefix_append p r = rw (has_prefix_append p r) (drop_append p r)

abbrev is_space : ℕ → Bool
is_space c = (leb 9 c && leb c 13) || eqb c 32

abbrev with_word : Text → List Text → List Text
with_word [] ws = ws
with_word (c ∷ w) ws = (c ∷ w) ∷ ws

-- `strings.Fields` with the word read so far; the ASCII spaces separate words.
unfoldable pub fields_from : Text → Text → List Text
fields_from word [] = with_word word []
fields_from word (c ∷ s) = elim (is_space c) [
  | true ↦ with_word word (fields_from [] s)
  | false ↦ fields_from (word ++ (c ∷ [])) s
]

unfoldable pub fields : Text → List Text
fields s = fields_from [] s
