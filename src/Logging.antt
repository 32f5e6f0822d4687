-- ===== src/Logging.antt =====
-- app/logging/logger.go: the logger and its two formatters. What the standard library gives is the
-- parameter `Library`. A writer is a number; what is written is the list of the writes. A message is
-- what `fmt.Sprint` or `fmt.Sprintf` makes, and fields come in the order of the map's iteration.
pub mod Calls
pub mod Setup
pub mod Lines
pub mod Forged
pub mod Ready
use corridor.Prelude.{
  ℕ, List, [], ◌∷◌, ◌++◌, Option, none, some, Bool, true, false, Result, ok, err, ltb,
  if◌then◌else◌,
}
use corridor.Prelude.Int.{ℤ}
use corridor.Prelude.Text.{Text, text, ◌==◌}
use corridor.Prelude.Dict.{Dict}
use corridor.Config.Yaml.{Value}

pub data Level : Type 0 where
  silent_level error_level warn_level info_level debug_level : Level

-- The number of a level, by `iota`.
abbrev pub rank : Level → ℕ
rank silent_level = 0
rank error_level = 1
rank warn_level = 2
rank info_level = 3
rank debug_level = 4

-- The map `levelToString`, with the empty string for the level that it lacks.
abbrev pub level_to_string : Level → Text
level_to_string silent_level = []
level_to_string error_level = text "ERROR"
level_to_string warn_level = text "WARN"
level_to_string info_level = text "INFO"
level_to_string debug_level = text "DEBUG"

-- The map `stringToLevel`.
unfoldable pub string_to_level : Text → Option Level
string_to_level s =
    if s == text "error"
    then some error_level
    else if s == text "warn"
    then some warn_level
    else if s == text "info"
    then some info_level
    else if s == text "debug"
    then some debug_level
    else none

-- The text formatter with its layout of time stamps.
pub data Formatter : Type 0 where
  text_formatter : Text → Formatter
  json_formatter : Formatter

pub record Logger : Type 0 where
  pub out : ℕ
  pub level : Level
  pub formatter : Formatter
  pub report_caller : Bool
  pub caller_skip : ℕ

pub record JsonLogEntry : Type 0 where
  pub timestamp : Text
  pub level : Text
  pub message : Text
  pub caller : Text
  pub fields : Dict Value

-- `time.Format`, `json.Marshal` with its error's text, `%v` of a value, and what stands for the frame
-- that `runtime.Caller` finds in the call of `output` at a time: `filepath.Base` of its file, a colon
-- and its line.
pub record Library : Type 0 where
  pub format_time : Text → ℤ → Text
  pub format_utc_nano : ℤ → Text
  pub marshal : JsonLogEntry → Result Text Text
  pub sprint : Value → Text
  pub caller_at : ℤ → ℕ → Option Text

abbrev pub rfc3339 : Text
rfc3339 = text "2006-01-02T15:04:05Z07:00"

abbrev pub layout_or_default : Text → Text
layout_or_default layout = if layout == [] then rfc3339 else layout

abbrev pub caller_part : Text → Text
caller_part caller = if caller == [] then [] else caller ++ text " "

-- The loop over the fields, after the first one.
unfoldable pub more_fields : Library → Dict Value → Text
more_fields lib [] = []
more_fields lib ((k, v) ∷ fields) =
    text ", " ++ (k ++ (text ": " ++ (lib.sprint v ++ more_fields lib fields)))

unfoldable pub fields_part : Library → Dict Value → Text
fields_part lib [] = []
fields_part lib ((k, v) ∷ fields) =
    text " {" ++ (k ++ (text ": " ++ (lib.sprint v ++ (more_fields lib fields ++ text "}"))))

-- The start of a line: the time stamp and the level.
abbrev pub line_start : Library → Text → Level → ℤ → Text
line_start lib layout level now =
    lib.format_time (layout_or_default layout) now
    ++ (text " [" ++ (level_to_string level ++ text "] "))

-- `Format` of the text formatter.
unfoldable pub format_text : Library → Text → Level → ℤ → Text → Dict Value → Text → Text
format_text lib layout level now message fields caller =
    line_start lib layout level now
    ++ (caller_part caller ++ (message ++ (fields_part lib fields ++ text "\n")))

-- `Format` of the JSON formatter.
unfoldable pub format_json : Library → Level → ℤ → Text → Dict Value → Text → Result Text Text
format_json lib level now message fields caller = lib.marshal (record {
  timestamp = lib.format_utc_nano now;
  level = level_to_string level;
  message = message;
  caller = caller;
  fields = fields;
})

-- A write: the writer and the bytes.
abbrev pub Write : Type 0
Write = ℕ × Text

abbrev pub caller_or_empty : Option Text → Text
caller_or_empty none = []
caller_or_empty (some s) = s

abbrev pub caller_of : Library → Logger → ℤ → Text
caller_of lib l now =
    if l.report_caller then caller_or_empty (lib.caller_at now l.caller_skip) else []

-- The writes of a JSON entry: its newline is a second one; and where the formatting fails, one.
abbrev pub json_writes : ℕ → Level → Text → Result Text Text → List Write
json_writes out level message (ok formatted) = (out, formatted) ∷ (out, text "\n") ∷ []
json_writes out level message (err e) =
    (
      out,
      text "Error formatting log message: "
          ++ (e
              ++ (text ". Original: ["
                  ++ (level_to_string level ++ (text "] " ++ (message ++ text "\n"))))),
    )
    ∷ []

abbrev pub formatted_writes :
    Library → Logger → Formatter → Level → ℤ → Text → Dict Value → List Write
formatted_writes lib l (text_formatter layout) level now message fields =
    (l.out, format_text lib layout level now message fields (caller_of lib l now)) ∷ []
formatted_writes lib l json_formatter level now message fields =
    json_writes l.out level message (format_json lib level now message fields (caller_of lib l now))

-- `l.level < level`, on which nothing is written.
abbrev pub is_filtered : Logger → Level → Bool
is_filtered l level = ltb (rank l.level) (rank level)

unfoldable pub output : Library → Logger → Level → ℤ → Text → Dict Value → List Write
output lib l level now message fields =
    if is_filtered l level then [] else formatted_writes lib l l.formatter level now message fields

-- `logf`, of a message that is formatted already, and `logw`.
unfoldable pub logf : Library → Logger → Level → ℤ → Text → List Write
logf lib l level now message = if is_filtered l level then [] else output lib l level now message []

unfoldable pub logw : Library → Logger → Level → ℤ → Text → Dict Value → List Write
logw lib l level now message fields =
    if is_filtered l level then [] else output lib l level now message fields
