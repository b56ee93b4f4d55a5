-- ===== src/Prelude/Scan.antt =====
-- Numbers and tokens in C strings: the `atoi`, `sscanf` and `strtok` of the C library, as the program
-- calls them. The behaviour is undefined where a number does not fit the type that receives it.
pub mod Laws
mod Tests
use vban.Prelude.Tests.{ltb, leb, ◌==◌, if◌then◌else◌}
use vban.Prelude.Fault.{◌>>=◌}
use vban.Prelude.Int.{ℤ, pos, negsuc}
use vban.Prelude.CString.{char_of, rest_of}
use Prim.Native.Nat.{ℕ, zero, suc, ◌+◌, ◌-◌, ◌*◌, ◌^◌}
use mathlib.Core.Bool.{Bool, true, false, ◌&&◌, ◌||◌}
use mathlib.Core.Option.{Option, none, some}
use mathlib.Core.List.{List, [], ◌∷◌}

-- `isspace`
abbrev pub is_space : ℕ → Bool
is_space c = c == 32 || leb 9 c && leb c 13

-- `isdigit`
abbrev pub is_digit : ℕ → Bool
is_digit c = leb b'0' c && leb c b'9'

unfoldable pub skip_spaces : List ℕ → List ℕ
skip_spaces [] = []
skip_spaces (c ∷ s) = if is_space c then skip_spaces s else c ∷ s

-- The value of the digits in front of a text, behind digits of the value `n`.
unfoldable pub digits_value : ℕ → List ℕ → ℕ
digits_value n [] = n
digits_value n (c ∷ s) =
    let more = digits_value (n * 10 + (c - b'0')) s in if is_digit c then more else n

-- An `int` of a sign and a size.
abbrev pub signed_int : Bool → ℕ → Option ℤ
signed_int true zero = some (pos 0)
signed_int true (suc n) = if ltb n (2 ^ 31) then some (negsuc n) else none
signed_int false n = if ltb n (2 ^ 31) then some (pos n) else none

-- The text behind a sign.
abbrev pub unsigned_part : List ℕ → List ℕ
unsigned_part s = if char_of s == b'-' || char_of s == b'+' then rest_of s else s

-- `atoi`: 0 where the text does not start with a number.
unfoldable pub atoi : List ℕ → Option ℤ
atoi s =
    let text = skip_spaces s in
    signed_int (char_of text == b'-') (digits_value 0 (unsigned_part text))

-- What `sscanf(s, "%u", &n)` does: it returns `EOF`, it stores nothing, or it stores a number.
pub data Scanned : Type 0 where
  end_of_text no_number : Scanned
  number : ℕ → Scanned

-- A text with a sign and no digit has no number. A number below 0, or from 2 ^ 32 on, does not fit.
abbrev pub scan_number : Bool → List ℕ → Option Scanned
scan_number negative s =
    let n = digits_value 0 s in
    if is_digit (char_of s)
    then if (if negative then n == 0 else ltb n (2 ^ 32)) then some (number n) else none
    else some no_number

unfoldable pub scan_unsigned : List ℕ → Option Scanned
scan_unsigned s =
    let text = skip_spaces s in
    if char_of text == 0
    then some end_of_text
    else scan_number (char_of text == b'-') (unsigned_part text)

-- A token before the others, unless it is empty.
abbrev pub keep_token : List ℕ → List (List ℕ) → List (List ℕ)
keep_token [] more = more
keep_token (c ∷ token) more = (c ∷ token) ∷ more

-- The token that a text starts with, which may be empty, and the tokens behind its delimiter.
unfoldable pub split_tokens : ℕ → List ℕ → List ℕ × List (List ℕ)
split_tokens delimiter [] = ([], [])
split_tokens delimiter (c ∷ s) =
    let (token, more) = split_tokens delimiter s in
    if c == 0
    then ([], [])
    else if c == delimiter
    then ([], keep_token token more)
    else (c ∷ token, more)

-- What the calls of `strtok` with one delimiter return in turn, up to the null pointer.
unfoldable pub tokens : ℕ → List ℕ → List (List ℕ)
tokens delimiter s = let (token, more) = split_tokens delimiter s in keep_token token more
