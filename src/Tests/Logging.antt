-- ===== src/Tests/Logging.antt =====
-- Lines of a logger at the level of warnings, and at the settings of a start.
use corridor.Prelude.{
  ◌≡◌, refl, List, [], ◌∷◌, ◌++◌, map, All, none, true, false, ok, eqb, Bool-cases, inl, inr,
}
use corridor.Prelude.Int.{pos}
use corridor.Prelude.Text.{Text, text, contains, ◌==◌, to_lower}
use corridor.Logging.{
  error_level, warn_level, info_level, text_formatter, json_formatter, Logger, Library,
  JsonLogEntry, rfc3339, output, logf, logw, format_json, string_to_level,
}
use corridor.Logging.Lines.{
  LogCall, prints, formats, lists, session, bytes_to, lines, lines_from, enabled, entry_for,
  Marshals, session-lines,
}
use corridor.Logging.Forged.{forged, output-forged}
use corridor.Logging.Setup.{stdout, new_logger, init, configured_level}
use corridor.Logging.Ready.{endings, IsTold, init-endings}
use corridor.Tests.Server.{global}

-- A newline as a backslash and an n.
unfoldable quote : Text → Text
quote [] = []
quote (c ∷ s) = elim (eqb c 10) [ true ↦ 92 ∷ 110 ∷ quote s | false ↦ c ∷ quote s ]

quote_one_line : (s : Text) → contains (quote s) 10 ≡ false
unfolding quote contains
quote_one_line [] = refl
quote_one_line (c ∷ s) = elim (Bool-cases (eqb c 10)) [
  | inl newline ↦ rw (contains, newline) (quote_one_line s)
  | inr other ↦ rw (contains, other, other) (quote_one_line s)
]

abbrev json : JsonLogEntry → Text
json e = quote (e.level ++ (text ": " ++ e.message))

abbrev library : Library
library = record {
  format_time = λ layout now. text "now";
  format_utc_nano = λ now. text "now";
  marshal = λ e. ok (json e);
  sprint = λ v. text "v";
  caller_at = λ now skip. none;
}

library-Marshals : Marshals library json
library-Marshals = record {
  gives = λ e. refl;
  one_line = λ e. quote_one_line (e.level ++ (text ": " ++ e.message));
}

abbrev json_logger : Logger
json_logger = new_logger stdout warn_level json_formatter false

abbrev text_logger : Logger
text_logger = new_logger stdout warn_level (text_formatter rfc3339) true

abbrev calls : List LogCall
calls =
    prints error_level (pos 1) (text "a\nb")
    ∷ formats info_level (pos 2) (text "c")
    ∷ lists warn_level (pos 3) (text "d") []
    ∷ []

session_test :
    lines (bytes_to stdout (session library json_logger calls))
    ≡ text "ERROR: a\\nb" ∷ text "WARN: d" ∷ []
unfolding session bytes_to lines_from quote output logf logw format_json
session_test = refl

session-lines_example :
    lines (bytes_to stdout (session library json_logger calls))
    ≡ map (λ c. json (entry_for library json_logger c)) (enabled json_logger calls)
session-lines_example = session-lines library json library-Marshals json_logger refl calls

forged_test :
    forged library text_logger rfc3339 error_level (pos 2) (text "a") (text "b")
    ≡ text "a\nnow [ERROR] b"
unfolding ◌==◌
forged_test = refl

output-forged_example :
    bytes_to stdout (
      session library text_logger (
        prints error_level
          (pos 1)
          (forged library text_logger rfc3339 error_level (pos 2) (text "a") (text "b"))
        ∷ []))
    ≡ bytes_to stdout (
        session library text_logger
          (prints error_level (pos 1) (text "a") ∷ prints error_level (pos 2) (text "b") ∷ []))
output-forged_example =
    output-forged library text_logger rfc3339 error_level refl refl (pos 1) (pos 2) (text "a")
      (text "b")

configured_level_test : configured_level (text "Error") ≡ error_level
unfolding configured_level string_to_level to_lower ◌==◌
configured_level_test = refl

init-endings_example :
    All
      (λ e. IsTold e.1 (bytes_to stdout e.0))
      (endings library
        (init library (pos 1) global [] json_logger).0
        (pos 2)
        (text "down")
        []
        (λ fields. []))
init-endings_example =
    init-endings library (pos 1) (pos 2) global [] json_logger (text "down") [] (λ fields. [])
