-- ===== src/Prelude/Scan/Laws.antt =====
-- Tokens and numbers of a text that is put together.
use vban.Prelude.Scan.{is_digit, split_tokens, tokens}
use Prim.Native.Nat.{ℕ}
use mathlib.Core.Path.{◌≡◌, refl}
use mathlib.Core.Bool.{Bool, true, ◌&&◌}
use mathlib.Core.List.{List, [], ◌∷◌, ◌++◌}
use native.Mathlib.Omega.{arith}

-- Every character is a digit.
abbrev pub are_digits : List ℕ → Bool
are_digits [] = true
are_digits (c ∷ s) = is_digit c && are_digits s

-- A token of digits with a comma behind it, and one at the end.
pub split_tokens-digits :
    (s behind : List ℕ)
    → are_digits s ≡ true
    → split_tokens b',' (s ++ (b',' ∷ behind)) ≡ (s, tokens b',' behind)
unfolding split_tokens tokens
split_tokens-digits [] behind h = refl
split_tokens-digits (c ∷ s) behind h = ground (arith, split_tokens-digits s behind)

pub split_tokens-last : (s : List ℕ) → are_digits s ≡ true → split_tokens b',' s ≡ (s, [])
unfolding split_tokens
split_tokens-last [] h = refl
split_tokens-last (c ∷ s) h = ground (arith, split_tokens-last s)
