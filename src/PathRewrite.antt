-- ===== src/PathRewrite.antt =====
-- app/plugins/pathrewrite.go. `regexp.Compile` and `ReplaceAllString` are the parameters `compile`
-- and `replace_all`; `none` is a nil map of settings.
use corridor.Prelude.{
  ◌≡◌, refl, sym, Option, none, some, false, [], Result, ok, err, if◌then◌else◌, Bool-cases, inl,
  inr,
}
use corridor.Prelude.Text.{Text, text, ◌==◌, eq_iff}
use corridor.Prelude.Dict.{Dict, lookup}
use corridor.Config.Yaml.{Value, as_string}

pub record PathRewritePlugin (Regex : Type 0) : Type 0 where
  pub regex : Regex
  pub replacement : Text

pub data PathRewriteError : Type 0 where
  configuration_missing regex_missing replacement_missing : PathRewriteError
  regex_invalid : Text → PathRewriteError

module _ {Regex : Type 0} (compile : Text → Option Regex) where
  abbrev pub with_replacement :
      Regex → Option Text → Result PathRewriteError (PathRewritePlugin Regex)
  with_replacement regex none = err replacement_missing
  with_replacement regex (some s) = ok (record { regex = regex; replacement = s })

  abbrev pub compiled :
      Text → Option Regex → Option Text → Result PathRewriteError (PathRewritePlugin Regex)
  compiled regex_str none replacement = err (regex_invalid regex_str)
  compiled regex_str (some regex) replacement = with_replacement regex replacement

  abbrev pub with_regex :
      Option Text → Option Text → Result PathRewriteError (PathRewritePlugin Regex)
  with_regex none replacement = err regex_missing
  with_regex (some regex_str) replacement =
      if regex_str == []
      then err regex_missing
      else compiled regex_str (compile regex_str) replacement

  unfoldable pub init : Option (Dict Value) → Result PathRewriteError (PathRewritePlugin Regex)
  init none = err configuration_missing
  init (some config) =
      with_regex (as_string (lookup (text "regex") config))
        (as_string (lookup (text "replacement") config))

-- The path that `Handle` leaves in the request for the next handler.
module _ {Regex : Type 0} (replace_all : Regex → Text → Text → Text) where
  unfoldable pub rewrite : PathRewritePlugin Regex → Text → Text
  rewrite p path =
      let new_path = replace_all p.regex path p.replacement in
      if new_path == path then path else new_path

  -- The test of the handler only chooses a log line: the path is the replaced one.
  rewrite-replace_all :
      (p : PathRewritePlugin Regex) (path : Text)
      → rewrite p path ≡ replace_all p.regex path p.replacement
  unfolding rewrite
  rewrite-replace_all p path = elim (Bool-cases (replace_all p.regex path p.replacement == path)) [
    | inl same ↦ rw same (sym ((eq_iff _ path).0 same))
    | inr new ↦ rw new refl
  ]

-- What the settings of a plugin that could be made are.
record Configured {Regex : Type 0} (compile : Text → Option Regex) (config : Option (Dict Value))
    (p : PathRewritePlugin Regex) : Type 0 where
  settings : Dict Value
  given : config ≡ some settings
  pattern : Text
  named : as_string (lookup (text "regex") settings) ≡ some pattern
  nonempty : (pattern == []) ≡ false
  compiles : compile pattern ≡ some p.regex
  replaces : as_string (lookup (text "replacement") settings) ≡ some p.replacement

module _ {Regex : Type 0} (compile : Text → Option Regex) where
  -- The plugin is made when the settings have a pattern that is not empty and compiles, and a
  -- replacement.
  init-Configured :
      (config : Option (Dict Value)) (p : PathRewritePlugin Regex)
      → Configured compile config p
      → init compile config ≡ ok p
  unfolding init
  init-Configured config p c = rw (c.given, c.named, c.replaces) (rw (c.nonempty, c.compiles) refl)
