-- ===== src/Stream/Laws.antt =====
-- The names of the sample formats, parsed and printed.
use vban.Prelude.{
  ℕ, zero, suc, ◌+◌, ◌≤◌, ◌<◌, ◌≡◌, refl, ◌∙◌, sym, arith, List, [], ◌∷◌, length, get_or,
}
use vban.Prelude.CString.{text_of, strcmp_eq_iff}
use vban.Stream.{bit_fmt_names, parse_from, parse_bit_fmt, print_bit_fmt}

parse_from_bounds :
    (names : List (List ℕ)) (argv : List ℕ) (i : ℕ)
    → (i ≤ parse_from names argv i) × (parse_from names argv i ≤ i + length names)
unfolding parse_from
parse_from_bounds [] argv i = omega arith
parse_from_bounds (n ∷ names) argv i = ground (arith, parse_from_bounds names argv (i + 1))

-- The loop ends at a name that is equal to the argument, or behind all names.
parse_from_name :
    (names : List (List ℕ)) (argv : List ℕ) (i j : ℕ)
    → parse_from names argv i ≡ i + j
    → j < length names
    → text_of argv ≡ text_of (get_or names j [])
unfolding parse_from
parse_from_name [] argv i j e h = absurd (omega arith)
parse_from_name (n ∷ names) argv i zero e h =
    ground (arith, strcmp_eq_iff argv n, parse_from_bounds names argv (i + 1))
parse_from_name (n ∷ names) argv i (suc j) e h =
    ground (arith, parse_from_name names argv (i + 1) j)

-- No name of a format holds a NUL.
names_are_text : (f : ℕ) → text_of (get_or bit_fmt_names f []) ≡ get_or bit_fmt_names f []
names_are_text zero = refl
names_are_text (suc zero) = refl
names_are_text (suc (suc zero)) = refl
names_are_text (suc (suc (suc zero))) = refl
names_are_text (suc (suc (suc (suc zero)))) = refl
names_are_text (suc (suc (suc (suc (suc zero))))) = refl
names_are_text (suc (suc (suc (suc (suc (suc zero)))))) = refl
names_are_text (suc (suc (suc (suc (suc (suc (suc zero))))))) = refl
names_are_text (suc (suc (suc (suc (suc (suc (suc (suc f)))))))) = refl

-- Each printed name of a format is parsed as that format.
pub parse_bit_fmt-print_bit_fmt : (f : ℕ) → f < 8 → parse_bit_fmt (print_bit_fmt f) ≡ f
unfolding parse_bit_fmt print_bit_fmt
parse_bit_fmt-print_bit_fmt zero h = refl
parse_bit_fmt-print_bit_fmt (suc zero) h = refl
parse_bit_fmt-print_bit_fmt (suc (suc zero)) h = refl
parse_bit_fmt-print_bit_fmt (suc (suc (suc zero))) h = refl
parse_bit_fmt-print_bit_fmt (suc (suc (suc (suc zero)))) h = refl
parse_bit_fmt-print_bit_fmt (suc (suc (suc (suc (suc zero))))) h = refl
parse_bit_fmt-print_bit_fmt (suc (suc (suc (suc (suc (suc zero)))))) h = refl
parse_bit_fmt-print_bit_fmt (suc (suc (suc (suc (suc (suc (suc zero))))))) h = refl
parse_bit_fmt-print_bit_fmt (suc (suc (suc (suc (suc (suc (suc (suc f)))))))) h =
    absurd (omega arith)

-- For every argument of `stream_parse_bit_fmt` the result is at most 8, and below 8 it is the format
-- whose printed name is the argument.
pub print_bit_fmt-parse_bit_fmt :
    (argv : List ℕ)
    → (parse_bit_fmt argv ≤ 8)
      × (parse_bit_fmt argv < 8 → print_bit_fmt (parse_bit_fmt argv) ≡ text_of argv)
print_bit_fmt-parse_bit_fmt argv = (
  unfold parse_bit_fmt in (parse_from_bounds bit_fmt_names argv 0).1,
  λ h.
      print_lem (parse_bit_fmt argv) h
      ∙ sym (names_are_text (parse_bit_fmt argv))
      ∙ sym (
          parse_from_name bit_fmt_names argv 0 (parse_bit_fmt argv)
            (unfold parse_bit_fmt in omega arith) h),
)
  where
    print_lem : (f : ℕ) → f < 8 → print_bit_fmt f ≡ get_or bit_fmt_names f []
    print_lem f h = unfold print_bit_fmt in ground arith

pub parse_bit_fmt-le : (argv : List ℕ) → parse_bit_fmt argv ≤ 8
unfolding parse_bit_fmt
parse_bit_fmt-le argv = (parse_from_bounds bit_fmt_names argv 0).1
