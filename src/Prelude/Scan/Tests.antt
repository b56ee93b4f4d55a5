-- ===== src/Prelude/Scan/Tests.antt =====
-- Runs of `atoi`, `sscanf` and `strtok`.
use vban.Prelude.CString.{codes}
use vban.Prelude.Int.{pos, negsuc}
use vban.Prelude.Scan.{
  skip_spaces, digits_value, atoi, end_of_text, no_number, number, scan_unsigned, split_tokens,
  tokens,
}
use mathlib.Core.Path.{◌≡◌, refl}
use mathlib.Core.Option.{none, some}
use mathlib.Core.List.{[], ◌∷◌}

numbers_read :
    (atoi (codes " 6980x") ≡ some (pos 6980))
    × (atoi (codes "-12") ≡ some (negsuc 11))
    × (atoi (codes "port") ≡ some (pos 0))
    × (atoi (codes "2147483648") ≡ none)
unfolding atoi skip_spaces digits_value
numbers_read = (refl, refl, refl, refl)

unsigned_read :
    (scan_unsigned (codes " 12") ≡ some (number 12))
    × (scan_unsigned (codes "  ") ≡ some end_of_text)
    × (scan_unsigned (codes "x1") ≡ some no_number)
    × (scan_unsigned (codes "-") ≡ some no_number)
    × (scan_unsigned (codes "-1") ≡ none)
unfolding scan_unsigned skip_spaces digits_value
unsigned_read = (refl, refl, refl, refl, refl)

tokens_read : tokens b',' (codes ",1,,23,") ≡ codes "1" ∷ codes "23" ∷ []
unfolding tokens split_tokens
tokens_read = refl
