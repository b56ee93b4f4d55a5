-- ===== src/Stream/Tests.antt =====
-- The names of the formats on concrete arguments.
use vban.Prelude.{◌≡◌, refl, [], ◌∷◌}
use vban.Prelude.CString.{codes, strcmp_eq}
use vban.Stream.{parse_bit_fmt, print_bit_fmt}

parses_names :
    parse_bit_fmt (codes "8I") ∷ parse_bit_fmt (codes "24I") ∷ parse_bit_fmt (codes "10I") ∷ []
    ≡ 0 ∷ 2 ∷ 7 ∷ []
unfolding parse_bit_fmt strcmp_eq
parses_names = refl

prints_names : print_bit_fmt 2 ∷ print_bit_fmt 8 ∷ [] ≡ codes "24I" ∷ codes "Invalid" ∷ []
unfolding print_bit_fmt
prints_names = refl

unknown_name : parse_bit_fmt (codes "16") ≡ 8
unfolding parse_bit_fmt strcmp_eq
unknown_name = refl
