-- ===== src/Vban/Header/Laws.antt =====
-- The header's fields stored in memory and read back.
use vban.Prelude.{
  ℕ, zero, suc, ◌+◌, ◌^◌, ◌<◌, ◌≤◌, ◌≡◌, refl, arith, List, ◌++◌, length, get_or, drop, take,
  length-append, length-drop,
}
use vban.Prelude.Memory.{
  length-slice, get_or-append, take-append, drop-append, IsBytes, append-IsBytes, drop-IsBytes,
  take-IsBytes,
}
use mathlib.Core.List.{append_assoc}
use vban.Vban.Header.{
  Header, IsHeader, load_u32, u32_bytes, read_header, header_bytes, write_header,
}

u32_lem : (n : ℕ) → n < 2 ^ 32 → load_u32 (u32_bytes n) 0 ≡ n
u32_lem n h = omega arith

u32-IsBytes : (n : ℕ) → IsBytes (u32_bytes n)
u32-IsBytes n zero = omega arith
u32-IsBytes n (suc zero) = omega arith
u32-IsBytes n (suc (suc zero)) = omega arith
u32-IsBytes n (suc (suc (suc zero))) = omega arith
u32-IsBytes n (suc (suc (suc (suc i)))) = omega arith

pub header_bytes-IsBytes : (h : Header) → IsHeader h → IsBytes (header_bytes h)
header_bytes-IsBytes h v zero = omega arith
header_bytes-IsBytes h v (suc zero) = omega arith
header_bytes-IsBytes h v (suc (suc zero)) = omega arith
header_bytes-IsBytes h v (suc (suc (suc zero))) = omega arith
header_bytes-IsBytes h v (suc (suc (suc (suc zero)))) = v.sr_u8
header_bytes-IsBytes h v (suc (suc (suc (suc (suc zero))))) = v.nbs_u8
header_bytes-IsBytes h v (suc (suc (suc (suc (suc (suc zero)))))) = v.nbc_u8
header_bytes-IsBytes h v (suc (suc (suc (suc (suc (suc (suc zero))))))) = v.bit_u8
header_bytes-IsBytes h v (suc (suc (suc (suc (suc (suc (suc (suc i)))))))) =
    append-IsBytes h.streamname (u32_bytes h.nu_frame) v.name_u8 (u32-IsBytes h.nu_frame) i

pub length-header_bytes : (h : Header) → IsHeader h → length (header_bytes h) ≡ 28
length-header_bytes h v =
    omega (arith, length-append h.streamname (u32_bytes h.nu_frame), v.name_16)

pub length-write_header :
    (m : List ℕ) (h : Header) → IsHeader h → 28 ≤ length m → length (write_header m h) ≡ length m
unfolding write_header
length-write_header m h v fits =
    omega
      (arith, length-append (header_bytes h) (drop 28 m), length-header_bytes h v, length-drop 28 m)

-- Storing a header leaves the payload alone.
pub drop-write_header :
    (m : List ℕ) (h : Header) → IsHeader h → drop 28 (write_header m h) ≡ drop 28 m
unfolding write_header
drop-write_header m h v = drop-append (header_bytes h) (drop 28 m) 28 (length-header_bytes h v)

-- A byte behind a prefix of known length.
get_or-append_behind :
    (xs ys : List ℕ) (i j : ℕ) → j ≡ length xs + i → get_or (xs ++ ys) j 0 ≡ get_or ys i 0
get_or-append_behind xs ys i j e = ground (arith, get_or-append xs ys j)

module _ (m : List ℕ) (h : Header) (v : IsHeader h) where
  -- what stands from offset 8 on
  abbrev tail_bytes : List ℕ
  tail_bytes = h.streamname ++ u32_bytes h.nu_frame ++ drop 28 m

  take_name : take 16 tail_bytes ≡ h.streamname
  take_name = rw append_assoc (take-append h.streamname _ 16 v.name_16)

  nu_byte :
      (i j : ℕ)
      → j ≡ 16 + i
      → get_or tail_bytes j 0 ≡ get_or (u32_bytes h.nu_frame ++ drop 28 m) i 0
  nu_byte i j e =
      rw append_assoc (get_or-append_behind h.streamname _ i j (omega (arith, v.name_16)))

  load_nu : load_u32 tail_bytes 16 ≡ h.nu_frame
  load_nu =
      omega (
        arith,
        nu_byte 0 16 refl,
        nu_byte 1 17 refl,
        nu_byte 2 18 refl,
        nu_byte 3 19 refl,
        v.nu_u32,
      )

-- What is stored is what is read back.
pub read_header-write_header :
    (m : List ℕ) (h : Header) → IsHeader h → read_header (write_header m h) ≡ h
unfolding read_header write_header
read_header-write_header m h v = λ i. record {
  vban = u32_lem h.vban v.vban_u32 i;
  format_sr = h.format_sr;
  format_nbs = h.format_nbs;
  format_nbc = h.format_nbc;
  format_bit = h.format_bit;
  streamname = take_name m h v i;
  nu_frame = load_nu m h v i;
}

-- The fields of a header in a block of bytes are in range.
pub read_header-IsHeader : (m : List ℕ) → IsBytes m → 28 ≤ length m → IsHeader (read_header m)
unfolding read_header
read_header-IsHeader m b fits = record {
  vban_u32 = omega (arith, b 0, b 1, b 2, b 3);
  sr_u8 = b 4;
  nbs_u8 = b 5;
  nbc_u8 = b 6;
  bit_u8 = b 7;
  name_16 = length-slice m 8 16 (omega arith);
  nu_u32 = omega (arith, b 24, b 25, b 26, b 27);
  name_u8 = take-IsBytes 16 (drop 8 m) (drop-IsBytes 8 m b);
}

-- A block of bytes stays one when a header is stored in it.
pub write_header-IsBytes :
    (m : List ℕ) (h : Header) → IsBytes m → IsHeader h → IsBytes (write_header m h)
unfolding write_header
write_header-IsBytes m h b v =
    append-IsBytes (header_bytes h) (drop 28 m) (header_bytes-IsBytes h v) (drop-IsBytes 28 m b)
