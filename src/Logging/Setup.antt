-- ===== src/Logging/Setup.antt =====
-- app/logging/logger.go: the standard logger, `Init` and the setters.
use corridor.Prelude.{ℕ, List, [], Option, none, some, Bool, false, not, if◌then◌else◌}
use corridor.Prelude.Int.{ℤ}
use corridor.Prelude.Text.{Text, text, ◌==◌, to_lower}
use corridor.Prelude.Dict.{Dict, lookup}
use corridor.Config.{GlobalConfig}
use corridor.Config.Yaml.{Value, as_string}
use corridor.Logging.{
  Level, info_level, string_to_level, Formatter, text_formatter, json_formatter, Logger, Library,
  Write, rfc3339, output,
}

-- The writer `os.Stdout`.
abbrev pub stdout : ℕ
stdout = 1

-- `New`.
abbrev pub new_logger : ℕ → Level → Formatter → Bool → Logger
new_logger out level formatter report_caller = record {
  out = out;
  level = level;
  formatter = formatter;
  report_caller = report_caller;
  caller_skip = 2;
}

abbrev pub std : Logger
std = new_logger stdout info_level (text_formatter rfc3339) false

abbrev pub set_output : ℕ → Logger → Logger
set_output w l = record l { out = w }

abbrev pub set_level : Level → Logger → Logger
set_level level l = record l { level = level }

abbrev pub set_formatter : Formatter → Logger → Logger
set_formatter formatter l = record l { formatter = formatter }

abbrev pub set_report_caller : Bool → Logger → Logger
set_report_caller report l = record l { report_caller = report }

abbrev pub level_or_info : Option Level → Level
level_or_info none = info_level
level_or_info (some level) = level

-- The level of a name from the settings, in any case; a name that is none, or missing, is `info`.
unfoldable pub configured_level : Text → Level
configured_level name =
    if not (name == []) then level_or_info (string_to_level (to_lower name)) else info_level

abbrev pub format_or_text : Option Text → Text
format_or_text none = text "text"
format_or_text (some format) = to_lower format

-- The `switch` over the format.
unfoldable pub configured_formatter : Dict Value → Formatter
configured_formatter config =
    if format_or_text (as_string (lookup (text "format") config)) == text "json"
    then json_formatter
    else text_formatter rfc3339

-- `Init`: the standard logger after it, and its first message. What it says to the package `log`
-- about an unknown name is left out.
unfoldable pub init : Library → ℤ → GlobalConfig → Dict Value → Logger → Logger × List Write
init lib now global_cfg plugin_logging_cfg l =
    let ready =
      set_formatter (configured_formatter plugin_logging_cfg)
        (set_level (configured_level global_cfg.log_level) (set_output stdout l)) in
    (ready, output lib ready info_level now (text "Logger initialized") [])
