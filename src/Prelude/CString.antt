-- ===== src/Prelude/CString.antt =====
-- C strings: lists of bytes that end at the first NUL, or at the end of the list, where a literal
-- has its NUL. The functions of string.h that the program calls.
use vban.Prelude.Tests.{Bool-cases, ◌==◌, if◌then◌else◌}
use vban.Prelude.Lists.{length, take}
use vban.Prelude.Memory.{IsBytes}
use mathlib.Core.List.{◌++◌}
use Prim.Native.Nat.{ℕ, zero, suc, ◌≤◌}
use Prim.Native.Char.{code}
use Prim.Native.String.{String}
use mathlib.Core.Path.{◌≡◌, refl}
use mathlib.Core.Logic.{◌↔◌, inl, inr}
use mathlib.Core.Bool.{Bool, true, false}
use mathlib.Core.List.{List, [], ◌∷◌}
use native.Mathlib.Omega.{arith}

-- The bytes of a literal.
abbrev pub codes : String → List ℕ
codes String.[] = []
codes (String.◌∷◌ c s) = code c ∷ codes s

-- `*s` and `s + 1`
abbrev pub char_of : List ℕ → ℕ
char_of [] = 0
char_of (c ∷ s) = c

abbrev pub rest_of : List ℕ → List ℕ
rest_of [] = []
rest_of (c ∷ s) = s

-- The characters before the NUL; their number is `strlen`.
abbrev pub text_of : List ℕ → List ℕ
text_of [] = []
text_of (c ∷ s) = if c == 0 then [] else c ∷ text_of s

-- `strcmp(a, b) == 0`
unfoldable pub strcmp_eq : List ℕ → List ℕ → Bool
strcmp_eq [] b = char_of b == 0
strcmp_eq (c ∷ a) b =
    if c == char_of b then if c == 0 then true else strcmp_eq a (rest_of b) else false

-- `strncmp(a, b, n) == 0`
unfoldable pub strncmp_eq : ℕ → List ℕ → List ℕ → Bool
strncmp_eq zero a b = true
strncmp_eq (suc n) a b =
    if char_of a == char_of b
    then if char_of a == 0 then true else strncmp_eq n (rest_of a) (rest_of b)
    else false

-- What `strncpy(dest, s, n)` stores: `n` bytes, of which those after the text are NUL.
unfoldable pub strncpy : ℕ → List ℕ → List ℕ
strncpy zero s = []
strncpy (suc n) s = char_of s ∷ strncpy n (if char_of s == 0 then [] else rest_of s)

pub strcmp_eq_iff : (a b : List ℕ) → (strcmp_eq a b ≡ true) ↔ (text_of a ≡ text_of b)
unfolding strcmp_eq
strcmp_eq_iff [] [] = ground arith
strcmp_eq_iff [] (y ∷ b) = ground arith
strcmp_eq_iff (x ∷ a) [] = ground arith
strcmp_eq_iff (x ∷ a) (y ∷ b) = ground (arith, strcmp_eq_iff a b)

pub strncmp_eq_iff :
    (n : ℕ) (a b : List ℕ) → (strncmp_eq n a b ≡ true) ↔ (text_of (take n a) ≡ text_of (take n b))
unfolding strncmp_eq
strncmp_eq_iff zero a b = ground arith
strncmp_eq_iff (suc n) [] [] = ground arith
strncmp_eq_iff (suc n) [] (y ∷ b) = ground arith
strncmp_eq_iff (suc n) (x ∷ a) [] = ground arith
strncmp_eq_iff (suc n) (x ∷ a) (y ∷ b) = ground (arith, strncmp_eq_iff n a b)

pub length-strncpy : (n : ℕ) (s : List ℕ) → length (strncpy n s) ≡ n
unfolding strncpy
length-strncpy zero s = refl
length-strncpy (suc n) s =
    omega (arith, length-strncpy n (if char_of s == 0 then [] else rest_of s))

pub strncpy-IsBytes : (n : ℕ) (s : List ℕ) → IsBytes s → IsBytes (strncpy n s)
unfolding strncpy
strncpy-IsBytes zero s b i = omega arith
strncpy-IsBytes (suc n) [] b zero = omega arith
strncpy-IsBytes (suc n) [] b (suc i) = strncpy-IsBytes n [] b i
strncpy-IsBytes (suc n) (c ∷ s) b zero = b zero
strncpy-IsBytes (suc n) (c ∷ s) b (suc i) = elim (Bool-cases (c == 0)) [
  | inl e ↦ rw e (strncpy-IsBytes n [] (λ j. omega arith) i)
  | inr e ↦ rw e (strncpy-IsBytes n s (λ j. b (suc j)) i)
]

-- A text of at most `n` characters, copied in front of a NUL, is equal to its copy.
pub strncmp_eq-strncpy :
    (n : ℕ) (s behind : List ℕ)
    → length (text_of s) ≤ n
    → char_of behind ≡ 0
    → strncmp_eq (suc n) s (strncpy n s ++ behind) ≡ true
unfolding strncmp_eq strncpy
strncmp_eq-strncpy zero [] behind h e = ground arith
strncmp_eq-strncpy zero (c ∷ s) behind h e = ground arith
strncmp_eq-strncpy (suc n) [] behind h e = ground arith
strncmp_eq-strncpy (suc n) (c ∷ s) behind h e = ground (arith, strncmp_eq-strncpy n s behind)
