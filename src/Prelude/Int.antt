-- ===== src/Prelude/Int.antt =====
-- The `int` of the return codes, and the conversions between it and the unsigned types. `size_t` has
-- 64 bits, `int` and `unsigned int` have 32; a value that does not fit wraps.
use vban.Prelude.Tests.{ltb, if◌then◌else◌}
use Prim.Native.Nat.{ℕ, ◌-◌, ◌%◌, ◌^◌, ◌<◌}
use mathlib.Core.Path.{◌≡◌}
use mathlib.Core.Bool.{Bool, true, false}
use native.Mathlib.Omega.{arith}

-- `negsuc n` is -(n + 1).
pub data ℤ : Type 0 where
  pos : ℕ → ℤ
  negsuc : ℕ → ℤ

-- `ret < 0`
abbrev pub is_negative : ℤ → Bool
is_negative (pos n) = false
is_negative (negsuc n) = true

-- `ret == 0`
abbrev pub is_zero : ℤ → Bool
is_zero (pos n) = if ltb 0 n then false else true
is_zero (negsuc n) = false

-- A `size_t` or an `unsigned int` stored into an `int`: the low 32 bits, read as two's complement.
abbrev pub as_int : ℕ → ℤ
as_int n = let w = n % 2 ^ 32 in if ltb w (2 ^ 31) then pos w else negsuc (2 ^ 32 - 1 - w)

-- An `int` in an expression of type `size_t`.
abbrev pub as_size : ℤ → ℕ
as_size (pos n) = n % 2 ^ 64
as_size (negsuc n) = 2 ^ 64 - 1 - n % 2 ^ 64

-- An `int` in an expression of type `unsigned int`.
abbrev pub as_uint : ℤ → ℕ
as_uint (pos n) = n % 2 ^ 32
as_uint (negsuc n) = 2 ^ 32 - 1 - n % 2 ^ 32

-- An `int` stored into a `short`: the low 16 bits, read as two's complement.
abbrev pub as_short : ℤ → ℤ
as_short z = let w = as_uint z % 2 ^ 16 in if ltb w (2 ^ 15) then pos w else negsuc (2 ^ 16 - 1 - w)

-- What an `int` can hold.
abbrev pub IsInt : ℤ → Type 0
IsInt (pos n) = n < 2 ^ 31
IsInt (negsuc n) = n < 2 ^ 31

-- An `int` that passes through `size_t` comes back unchanged.
pub as_int-as_size : (z : ℤ) → IsInt z → as_int (as_size z) ≡ z
as_int-as_size (pos n) h = ground arith
as_int-as_size (negsuc n) h = ground arith

pub as_int_small : (n : ℕ) → n < 2 ^ 31 → as_int n ≡ pos n
as_int_small n h = ground arith

-- The codes of errno.h that the program returns, negated.
abbrev pub einval : ℤ
einval = negsuc 21

abbrev pub enodev : ℤ
enodev = negsuc 18

abbrev pub enomem : ℤ
enomem = negsuc 11
