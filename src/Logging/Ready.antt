-- ===== src/Logging/Ready.antt =====
-- What is written at the level of errors once `Init` has run.
use corridor.Prelude.{
  eqb_self, ℕ, ◌≡◌, refl, sym, ◌∙◌, ◌≢◌, All, List, [], ◌∷◌, ◌++◌, Bool, true, false, arith, Result,
  ok, err, ltb,
}
use corridor.Prelude.Int.{ℤ}
use corridor.Prelude.Text.{Text, text}
use corridor.Prelude.Dict.{Dict}
use corridor.Config.{GlobalConfig}
use corridor.Config.Yaml.{Value}
use corridor.Logging.{
  Level, silent_level, error_level, warn_level, info_level, debug_level, rank, string_to_level,
  Formatter, text_formatter, json_formatter, Logger, Library, Write, formatted_writes, json_writes,
  is_filtered, level_to_string, output, logf, logw, format_json, format_text, caller_of,
  layout_or_default,
}
use corridor.Logging.Lines.{bytes_to}
use mathlib.Core.List.{append-nil, append_assoc}
use corridor.Logging.Calls.{
  Ending, returns, exits, panics, fatal, fatalf, fatalw, panic, panicf, panicw,
}
use corridor.Logging.Setup.{configured_level, stdout, init}

-- Whether a logger at the level writes an error.
abbrev is_loud : Level → Bool
is_loud silent_level = false
is_loud error_level = true
is_loud warn_level = true
is_loud info_level = true
is_loud debug_level = true

configured_level-is_loud : (name : Text) → is_loud (configured_level name) ≡ true
unfolding configured_level string_to_level
configured_level-is_loud name = ground arith

is_loud-is_filtered : (level : Level) → is_loud level ≡ true → ltb (rank level) 1 ≡ false
is_loud-is_filtered silent_level loud = absurd (cc)
is_loud-is_filtered error_level loud = refl
is_loud-is_filtered warn_level loud = refl
is_loud-is_filtered info_level loud = refl
is_loud-is_filtered debug_level loud = refl

append-ne_nil : (s : Text) (c : ℕ) (t : Text) → s ++ (c ∷ t) ≢ []
append-ne_nil [] c t none_left = cc
append-ne_nil (d ∷ s) c t none_left = cc

own_bytes : (out : ℕ) (s : Text) → bytes_to out ((out, s) ∷ []) ≡ s
unfolding bytes_to
own_bytes out s = rw (eqb_self out) (append-nil s)

json_bytes :
    (out : ℕ) (level : Level) (message : Text) (r : Result Text Text)
    → bytes_to out (json_writes out level message r) ≢ []
unfolding bytes_to
json_bytes out level message (ok s) none_left =
    append-ne_nil s 10 [] (rw (eqb_self out) at none_left)
json_bytes out level message (err s) none_left = let sent = rw (eqb_self out) at none_left in cc

formatted_bytes :
    (lib : Library) (l : Logger) (f : Formatter) (level : Level) (now : ℤ) (message : Text)
    (fields : Dict Value)
    → bytes_to l.out (formatted_writes lib l f level now message fields) ≢ []
unfolding format_text
formatted_bytes lib l (text_formatter layout) level now message fields none_left =
    let whole = format_text lib layout level now message fields (caller_of lib l now) in
    append-ne_nil (lib.format_time (layout_or_default layout) now) 32 _ (
      sym (
        append_assoc (lib.format_time (layout_or_default layout) now)
          (text " [" ++ (level_to_string level ++ text "] ")) _)
      ∙ sym (own_bytes l.out whole)
      ∙ none_left)
formatted_bytes lib l json_formatter level now message fields none_left =
    json_bytes l.out level message (format_json lib level now message fields (caller_of lib l now))
      none_left

-- The outcome of each of the six functions that end the program or the request.
abbrev pub endings :
    Library → Logger → ℤ → Text → Dict Value → (Dict Value → Text) → List (List Write × Ending)
endings lib l now message fields sprint_fields =
    fatal lib l now message
    ∷ fatalf lib l now message
    ∷ fatalw lib l now message fields
    ∷ panic lib l now message
    ∷ panicf lib l now message
    ∷ panicw lib l now sprint_fields message fields
    ∷ []

abbrev pub IsTold : Ending → Text → Type 0
IsTold returns told = ⊥
IsTold (exits status) told = (status ≡ 1) × (told ≢ [])
IsTold (panics reason) told = told ≢ []

init-level :
    (lib : Library) (now : ℤ) (global_cfg : GlobalConfig) (cfg : Dict Value) (l : Logger)
    → let ready = (init lib now global_cfg cfg l).0 in
      (ready.out ≡ stdout) × (is_filtered ready error_level ≡ false)
unfolding init
init-level lib now global_cfg cfg l = (
  refl,
  is_loud-is_filtered (configured_level global_cfg.log_level)
      (configured_level-is_loud global_cfg.log_level),
)

module _ (lib : Library) (l : Logger) (now : ℤ) (to_stdout : l.out ≡ stdout)
    (on : is_filtered l error_level ≡ false) where
  told :
      (message : Text) (fields : Dict Value)
      → bytes_to stdout (output lib l error_level now message fields) ≢ []
  unfolding output
  told message fields none_left =
      formatted_bytes lib l l.formatter error_level now message fields
        (rw (on, sym to_stdout) at none_left)

  told_f : (message : Text) → bytes_to stdout (logf lib l error_level now message) ≢ []
  unfolding logf
  told_f message none_left = told message [] (rw on at none_left)

  told_w :
      (message : Text) (fields : Dict Value)
      → bytes_to stdout (logw lib l error_level now message fields) ≢ []
  unfolding logw
  told_w message fields none_left = told message fields (rw on at none_left)

-- Once `Init` has run, whatever the settings name as the level and the format and whatever the
-- logger was before, each of the six functions that exit or panic puts at least a byte on standard
-- output first, and those that exit do so with status 1.
pub init-endings :
    (lib : Library) (start now : ℤ) (global_cfg : GlobalConfig) (cfg : Dict Value) (l : Logger)
    (message : Text) (fields : Dict Value) (sprint_fields : Dict Value → Text)
    → let ready = (init lib start global_cfg cfg l).0 in
      All
        (λ e. IsTold e.1 (bytes_to stdout e.0))
        (endings lib ready now message fields sprint_fields)
unfolding fatal fatalf fatalw panic panicf panicw
init-endings lib start now global_cfg cfg l message fields sprint_fields =
    let ready = (init lib start global_cfg cfg l).0 in
    let (to_stdout, on) = init-level lib start global_cfg cfg l in
    let plain = told lib ready now to_stdout on message [] in
    let formatted = told_f lib ready now to_stdout on message in
    let listed = told_w lib ready now to_stdout on message fields in
    ((refl, plain), ((refl, formatted), ((refl, listed), (plain, (formatted, (listed, _))))))
