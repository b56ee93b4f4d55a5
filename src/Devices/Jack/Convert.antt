-- ===== src/Devices/Jack/Convert.antt =====
-- `jack_convert_sample`: the bytes of a sample as a floating point number. The arithmetic of `float` is
-- a parameter.
use vban.Prelude.{
  ℕ, zero, suc, ◌+◌, ◌-◌, ◌*◌, ◌/◌, ◌%◌, ◌^◌, ◌<◌, ◌≡◌, ap, arith, List, [], ◌∷◌, get_or, ltb, ◌==◌,
  if◌then◌else◌,
}
use vban.Prelude.Int.{ℤ, pos, negsuc}

-- `float` as the function uses it: the conversion of an `int`, the division, the value whose
-- representation is four bytes, and 0.
pub record Floats (F : Type 0) : Type 0 where
  pub of_int : ℤ → F
  pub divide : F → F → F
  pub of_bytes : List ℕ → F
  pub null : F

-- A word of `width` bits read as a signed number.
abbrev pub signed : ℕ → ℕ → ℤ
signed width n = if ltb n (2 ^ (width - 1)) then pos n else negsuc (2 ^ width - 1 - n)

-- `(high << 16) | low`, where `high` is a signed `char` and `low` has 16 bits.
abbrev pub shift_join : ℤ → ℕ → ℤ
shift_join (pos high) low = pos (high * 65536 + low)
shift_join (negsuc high) low = negsuc (high * 65536 + 65535 - low)

-- `1 << 31` is the least `int`.
abbrev pub shifted_31 : ℤ
shifted_31 = negsuc (2 ^ 31 - 1)

module _ {F : Type 0} (floats : Floats F) where
  abbrev ratio : ℤ → ℤ → F
  ratio value unit = floats.divide (floats.of_int value) (floats.of_int unit)

  unfoldable pub jack_convert_sample : ℕ → List ℕ → F
  jack_convert_sample bit_fmt ptr =
      let b0 = get_or ptr 0 0 in
      let b1 = get_or ptr 1 0 in
      let b2 = get_or ptr 2 0 in
      let b3 = get_or ptr 3 0 in
      if bit_fmt == 0
      then ratio (signed 8 b0) (pos (2 ^ 7))
      else if bit_fmt == 1
      then ratio (signed 16 (b0 + b1 * 256)) (pos (2 ^ 15))
      else if bit_fmt == 2
      then ratio (shift_join (signed 8 b2) (b1 * 256 + b0)) (pos (2 ^ 23))
      else if bit_fmt == 3
      then ratio (signed 32 (b0 + b1 * 256 + b2 * 65536 + b3 * 16777216)) shifted_31
      else if bit_fmt == 4
      then floats.of_bytes ptr
      else floats.null

-- What a `width`-bit integer can hold, and its bytes, the lowest first.
abbrev pub IsSigned : ℕ → ℤ → Type 0
IsSigned width (pos n) = n < 2 ^ (width - 1)
IsSigned width (negsuc n) = n < 2 ^ (width - 1)

abbrev pub word_of : ℕ → ℤ → ℕ
word_of width (pos n) = n
word_of width (negsuc n) = 2 ^ width - 1 - n

abbrev pub sample_bytes : ℕ → ℤ → List ℕ
sample_bytes width z =
    let n = word_of width z in n % 256 ∷ n / 256 % 256 ∷ n / 65536 % 256 ∷ n / 16777216 % 256 ∷ []

decode_8 : (z : ℤ) → IsSigned 8 z → signed 8 (word_of 8 z % 256) ≡ z
decode_8 (pos n) h = ground arith
decode_8 (negsuc n) h = ground arith

decode_16 :
    (z : ℤ)
    → IsSigned 16 z
    → (let w = word_of 16 z in signed 16 (w % 256 + w / 256 % 256 * 256)) ≡ z
decode_16 (pos n) h = ground arith
decode_16 (negsuc n) h = ground arith

decode_24 :
    (z : ℤ)
    → IsSigned 24 z
    → (let w = word_of 24 z in
        shift_join (signed 8 (w / 65536 % 256)) (w / 256 % 256 * 256 + w % 256))
      ≡ z
decode_24 (pos n) h = ground arith
decode_24 (negsuc n) h = ground arith

decode_32 :
    (z : ℤ)
    → IsSigned 32 z
    → (let w = word_of 32 z in
        signed 32
          (w % 256 + w / 256 % 256 * 256 + w / 65536 % 256 * 65536 + w / 16777216 % 256 * 16777216))
      ≡ z
decode_32 (pos n) h = ground arith
decode_32 (negsuc n) h = ground arith

-- What the integer of each of the formats 8I to 32I is divided by.
abbrev pub unit_of : ℕ → ℤ
unit_of bit_fmt = if bit_fmt == 3 then negsuc (2 ^ 31 - 1) else pos (2 ^ (8 * bit_fmt + 7))

-- In the formats 8I, 16I, 24I and 32I the little-endian bytes of a signed integer are converted to that
-- integer divided by 2 ^ 7, 2 ^ 15, 2 ^ 23 and, in 32I, by the least `int`, which is negative.
pub convert_lem :
    {F : Type 0} (floats : Floats F) (bit_fmt : ℕ) (z : ℤ)
    → bit_fmt < 4
    → IsSigned (8 * bit_fmt + 8) z
    → jack_convert_sample floats bit_fmt (sample_bytes (8 * bit_fmt + 8) z)
      ≡ floats.divide (floats.of_int z) (floats.of_int (unit_of bit_fmt))
unfolding jack_convert_sample
convert_lem floats zero z format h =
    ap (λ x. floats.divide (floats.of_int x) (floats.of_int (pos (2 ^ 7)))) (decode_8 z h)
convert_lem floats (suc zero) z format h =
    ap (λ x. floats.divide (floats.of_int x) (floats.of_int (pos (2 ^ 15)))) (decode_16 z h)
convert_lem floats (suc (suc zero)) z format h =
    ap (λ x. floats.divide (floats.of_int x) (floats.of_int (pos (2 ^ 23)))) (decode_24 z h)
convert_lem floats (suc (suc (suc zero))) z format h =
    ap (λ x. floats.divide (floats.of_int x) (floats.of_int (negsuc (2 ^ 31 - 1)))) (decode_32 z h)
convert_lem floats (suc (suc (suc (suc f)))) z format h = absurd (omega arith)
