-- ===== src/Logging/Calls.antt =====
-- app/logging/logger.go: the functions of the package over its standard logger, with the writes of
-- a call at a time and how it ends.
use corridor.Prelude.{ℕ, List, [], ◌++◌}
use corridor.Prelude.Int.{ℤ}
use corridor.Prelude.Text.{Text, text}
use corridor.Prelude.Dict.{Dict}
use corridor.Config.Yaml.{Value}
use corridor.Logging.{
  Library, Logger, Write, output, logf, logw, error_level, warn_level, info_level, debug_level,
}

-- `os.Exit` with a status, and a panic with its message.
pub data Ending : Type 0 where
  returns : Ending
  exits : ℕ → Ending
  panics : Text → Ending

module _ (lib : Library) (std : Logger) (now : ℤ) where
  unfoldable pub debug : Text → List Write
  debug message = output lib std debug_level now message []

  unfoldable pub debugf : Text → List Write
  debugf message = logf lib std debug_level now message

  unfoldable pub debugw : Text → Dict Value → List Write
  debugw message fields = logw lib std debug_level now message fields

  unfoldable pub info : Text → List Write
  info message = output lib std info_level now message []

  unfoldable pub infof : Text → List Write
  infof message = logf lib std info_level now message

  unfoldable pub infow : Text → Dict Value → List Write
  infow message fields = logw lib std info_level now message fields

  unfoldable pub warn : Text → List Write
  warn message = output lib std warn_level now message []

  unfoldable pub warnf : Text → List Write
  warnf message = logf lib std warn_level now message

  unfoldable pub warnw : Text → Dict Value → List Write
  warnw message fields = logw lib std warn_level now message fields

  unfoldable pub error : Text → List Write
  error message = output lib std error_level now message []

  unfoldable pub errorf : Text → List Write
  errorf message = logf lib std error_level now message

  unfoldable pub errorw : Text → Dict Value → List Write
  errorw message fields = logw lib std error_level now message fields

  unfoldable pub fatal : Text → List Write × Ending
  fatal message = (output lib std error_level now message [], exits 1)

  unfoldable pub fatalf : Text → List Write × Ending
  fatalf message = (logf lib std error_level now message, exits 1)

  unfoldable pub fatalw : Text → Dict Value → List Write × Ending
  fatalw message fields = (logw lib std error_level now message fields, exits 1)

  unfoldable pub panic : Text → List Write × Ending
  panic message = (output lib std error_level now message [], panics message)

  unfoldable pub panicf : Text → List Write × Ending
  panicf message = (logf lib std error_level now message, panics message)

  -- `sprint_fields` is `%v` of the map.
  unfoldable pub panicw : (Dict Value → Text) → Text → Dict Value → List Write × Ending
  panicw sprint_fields message fields = (
    logw lib std error_level now message fields,
    panics (message ++ (text " " ++ sprint_fields fields)),
  )
