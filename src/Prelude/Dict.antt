-- ===== src/Prelude/Dict.antt =====
-- Go maps whose keys are strings, as association lists with at most one entry for a key that is
-- written through `insert`.
use mathlib.Core.Path.{◌≡◌, refl, subst}
use mathlib.Core.Logic.{inl, inr}
use mathlib.Core.List.{List, [], ◌∷◌}
use mathlib.Core.Option.{Option, none, some}
use native.Mathlib.Omega.{arith}
use corridor.Prelude.Tests.{if◌then◌else◌, Bool-cases, some-injective}
use corridor.Prelude.Lists.{All}
use corridor.Prelude.Text.{Text, ◌==◌, eq_iff, eq_refl}

abbrev pub Dict : Type 0 → Type 0
Dict V = List (Text × V)

module _ {V : Type 0} where
  -- `m[k]`, with its second result.
  unfoldable pub lookup : Text → Dict V → Option V
  lookup key [] = none
  lookup key ((slot, new) ∷ rest) = if slot == key then some new else lookup key rest

  -- `m[k] = v`.
  unfoldable pub insert : Text → V → Dict V → Dict V
  insert key new [] = (key, new) ∷ []
  insert key new ((slot, old) ∷ rest) =
      if slot == key then (key, new) ∷ rest else (slot, old) ∷ insert key new rest

  -- `delete(m, k)`.
  unfoldable pub delete : Text → Dict V → Dict V
  delete key [] = []
  delete key ((slot, old) ∷ rest) =
      let pruned = delete key rest in if slot == key then pruned else (slot, old) ∷ pruned

  pub lookup-nil : (key : Text) → lookup key [] ≡ none
  unfolding lookup
  lookup-nil key = refl

  pub lookup-insert :
      (key slot : Text) (new : V) (rest : Dict V)
      → lookup slot (insert key new rest) ≡ (if key == slot then some new else lookup slot rest)
  unfolding lookup insert
  lookup-insert key slot new [] = refl
  lookup-insert key slot new ((here, old) ∷ rest) =
      ground
        (arith, eq_iff key slot, eq_iff here key, eq_iff here slot, lookup-insert key slot new rest)

  pub lookup-insert_self :
      (key : Text) (new : V) (rest : Dict V) → lookup key (insert key new rest) ≡ some new
  lookup-insert_self key new rest = simp (lookup-insert, eq_refl)

  pub lookup-delete :
      (key slot : Text) (rest : Dict V)
      → lookup slot (delete key rest) ≡ (if key == slot then none else lookup slot rest)
  unfolding lookup delete
  lookup-delete key slot [] = ground arith
  lookup-delete key slot ((here, old) ∷ rest) =
      ground
        (arith, eq_iff key slot, eq_iff here key, eq_iff here slot, lookup-delete key slot rest)

-- A predicate on the entries of a map.
module _ {V : Type 0} (P : Text × V → Type 0) where
  pub lookup-All : (key : Text) (v : V) (m : Dict V) → All P m → lookup key m ≡ some v → P (key, v)
  unfolding lookup
  lookup-All key v [] every found = absurd (cc)
  lookup-All key v ((slot, old) ∷ m) (here, every) found = elim (Bool-cases (slot == key)) [
    | inl same ↦
        let e = (eq_iff slot key).0 same in
        let f = some-injective (rw same at found) in
        subst (λ k. P (k, v)) e (subst (λ x. P (slot, x)) f here)
    | inr differs ↦ lookup-All key v m every (rw differs at found)
  ]

  pub All-insert :
      (key : Text) (new : V) (m : Dict V) → P (key, new) → All P m → All P (insert key new m)
  unfolding insert
  All-insert key new [] this every = (this, tt)
  All-insert key new ((slot, old) ∷ m) this (here, every) = elim (Bool-cases (slot == key)) [
    | inl same ↦ rw same (this, every)
    | inr differs ↦ rw differs (here, All-insert key new m this every)
  ]

  pub All-delete : (key : Text) (m : Dict V) → All P m → All P (delete key m)
  unfolding delete
  All-delete key [] every = tt
  All-delete key ((slot, old) ∷ m) (here, every) = elim (Bool-cases (slot == key)) [
    | inl same ↦ rw same (All-delete key m every)
    | inr differs ↦ rw differs (here, All-delete key m every)
  ]
