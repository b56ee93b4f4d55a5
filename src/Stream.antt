-- ===== src/Stream.antt =====
-- src/common/stream.c and stream.h: the audio parameters of a stream, and the names of the sample
-- formats on the command line.
pub mod Laws
mod Tests
use vban.Prelude.{ℕ, ◌+◌, List, [], ◌∷◌, ltb, if◌then◌else◌, get_or}
use vban.Prelude.CString.{codes, strcmp_eq}
use vban.Vban.{bit_resolution_max}

-- `struct stream_config_t`; `bit_fmt` is the number of an `enum VBanBitResolution`.
pub record StreamConfig : Type 0 where
  pub nb_channels : ℕ
  pub sample_rate : ℕ
  pub bit_fmt : ℕ

abbrev pub bit_fmt_names : List (List ℕ)
bit_fmt_names =
    codes "8I"
    ∷ codes "16I"
    ∷ codes "24I"
    ∷ codes "32I"
    ∷ codes "32F"
    ∷ codes "64F"
    ∷ codes "12I"
    ∷ codes "10I"
    ∷ []

-- The `while` loop of `stream_parse_bit_fmt`, from `index` on: the names left, and the index.
pub parse_from : List (List ℕ) → List ℕ → ℕ → ℕ
unfolding strcmp_eq
parse_from [] argv index = index
parse_from (name ∷ names) argv index =
    if strcmp_eq argv name then index else parse_from names argv (index + 1)

unfoldable pub parse_bit_fmt : List ℕ → ℕ
unfolding parse_from
parse_bit_fmt argv = parse_from bit_fmt_names argv 0

unfoldable pub print_bit_fmt : ℕ → List ℕ
print_bit_fmt bit_fmt =
    if ltb bit_fmt bit_resolution_max then get_or bit_fmt_names bit_fmt [] else codes "Invalid"
