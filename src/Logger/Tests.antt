-- ===== src/Logger/Tests.antt =====
-- Messages at the level that the logger starts with, and at the highest.
use vban.Prelude.{◌≡◌, refl, none, some}
use vban.Prelude.CString.{codes}
use vban.Logger.{stderr, stdout, initial_output_level, prefix_of, logger_log}

messages :
    (logger_log initial_output_level 1 (codes "lost") ≡ some (stderr, codes "Error: lost\n"))
    × (logger_log initial_output_level 2 (codes "late") ≡ none)
    × (logger_log 4 3 (codes "ready") ≡ some (stdout, codes "Info: ready\n"))
    × (logger_log 9 5 (codes "odd") ≡ none)
unfolding logger_log prefix_of
messages = (refl, refl, refl, refl)
