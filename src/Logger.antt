-- ===== src/Logger.antt =====
-- src/common/logger.c: which messages are printed. The output level is the state of the logger; the other
-- modules leave the messages out, as nothing depends on them.
mod Tests
use vban.Prelude.{
  ℕ, Bool, List, ◌++◌, Option, none, some, ◌∷◌, [], ltb, leb, ◌==◌, if◌then◌else◌, ◌>>=◌,
}
use vban.Prelude.Int.{ℤ, as_uint}
use vban.Prelude.CString.{codes}

-- `LOG_WARNING` of `enum LogLevel`, and the level before any is set, `LOG_ERROR`.
abbrev pub log_warning : ℕ
log_warning = 2

abbrev pub initial_output_level : ℕ
initial_output_level = 1

-- `logger_set_output_level` of an `int`: what `LoggerOutputLevel` holds, an enumeration without negative
-- values.
abbrev pub logger_set_output_level : ℤ → ℕ
logger_set_output_level level = as_uint level

pub data Output : Type 0 where
  stderr stdout : Output

-- The `switch` of `logger_log`.
unfoldable pub prefix_of : ℕ → Option (List ℕ)
prefix_of level =
    if level == 0
    then some (codes "Fatal: ")
    else if level == 1
    then some (codes "Error: ")
    else if level == 2
    then some (codes "Warning: ")
    else if level == 3
    then some (codes "Info: ")
    else if level == 4
    then some (codes "Debug: ")
    else none

-- `logger_log`, for the text that the format stands for: where a line is printed, and the line.
unfoldable pub logger_log : ℕ → ℕ → List ℕ → Option (Output × List ℕ)
logger_log output_level level text =
    if ltb output_level level
    then none
    else (prefix_of level >>= λ front.
        some (if leb level log_warning then stderr else stdout, front ++ (text ++ 10 ∷ [])))
