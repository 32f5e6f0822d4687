-- ===== src/Plugin/Chain.antt =====
-- The order in which a chain of plugins runs.
use mathlib.Core.List.{foldr, reverse-cons}
use corridor.Prelude.{◌≡◌, refl, ◌∙◌, ap, List, [], ◌∷◌, ◌++◌, reverse}
use corridor.Plugin.{Plugin, chain_loop, chain_plugins}

module _ {H : Type 0} where
  chain_loop-append :
      (ps qs : List (Plugin H)) (h : H) → chain_loop (ps ++ qs) h ≡ chain_loop qs (chain_loop ps h)
  unfolding chain_loop
  chain_loop-append [] qs h = refl
  chain_loop-append (p ∷ ps) qs h = chain_loop-append ps qs (p.handle h)

  -- The first plugin wraps the chain of the others.
  pub chain_plugins_cons :
      (p : Plugin H) (ps : List (Plugin H)) (h : H)
      → chain_plugins (p ∷ ps) h ≡ p.handle (chain_plugins ps h)
  unfolding chain_plugins chain_loop
  chain_plugins_cons p ps h =
      ap (λ qs. chain_loop qs h) (reverse-cons p ps) ∙ chain_loop-append (reverse ps) (p ∷ []) h

  -- The chain is the right fold of the plugins around the ultimate handler: the first plugin of
  -- the list is the outermost, and the last one calls the ultimate handler.
  pub chain_plugins-foldr :
      (ps : List (Plugin H)) (h : H) → chain_plugins ps h ≡ foldr (λ p next. p.handle next) h ps
  unfolding chain_plugins chain_loop
  chain_plugins-foldr [] h = refl
  chain_plugins-foldr (p ∷ ps) h =
      chain_plugins_cons p ps h ∙ ap p.handle (chain_plugins-foldr ps h)
