-- ===== src/Vban/Header.antt =====
-- `struct VBanHeader` of src/vban/vban.h, packed, as the little-endian machine lays it out over the
-- first 28 bytes of a buffer: what a field read or write through `PACKET_HEADER_PTR` does.
pub mod Laws
pub mod Copied
mod Tests
use vban.Prelude.{length, ◌<◌, ◌≡◌, ℕ, ◌+◌, ◌*◌, ◌/◌, ◌%◌, ◌^◌, List, [], ◌∷◌, ◌++◌, get_or, drop}
use vban.Prelude.Memory.{slice, IsBytes}

-- `struct VBanHeader`
pub record Header : Type 0 where
  pub vban : ℕ
  pub format_sr : ℕ
  pub format_nbs : ℕ
  pub format_nbc : ℕ
  pub format_bit : ℕ
  pub streamname : List ℕ
  pub nu_frame : ℕ

-- A `uint32_t` at an offset.
abbrev pub load_u32 : List ℕ → ℕ → ℕ
load_u32 m o =
    get_or m o 0
    + get_or m (o + 1) 0 * 256
    + get_or m (o + 2) 0 * 65536
    + get_or m (o + 3) 0 * 16777216

abbrev pub u32_bytes : ℕ → List ℕ
u32_bytes n = n % 256 ∷ n / 256 % 256 ∷ n / 65536 % 256 ∷ n / 16777216 % 256 ∷ []

-- The fields of the header at the start of a buffer.
unfoldable pub read_header : List ℕ → Header
read_header m = record {
  vban = load_u32 m 0;
  format_sr = get_or m 4 0;
  format_nbs = get_or m 5 0;
  format_nbc = get_or m 6 0;
  format_bit = get_or m 7 0;
  streamname = slice m 8 16;
  nu_frame = load_u32 m 24;
}

abbrev pub header_bytes : Header → List ℕ
header_bytes h =
    h.vban % 256
    ∷ h.vban / 256 % 256
    ∷ h.vban / 65536 % 256
    ∷ h.vban / 16777216 % 256
    ∷ h.format_sr
    ∷ h.format_nbs
    ∷ h.format_nbc
    ∷ h.format_bit
    ∷ (h.streamname ++ u32_bytes h.nu_frame)

-- The buffer with the header's fields stored; the payload behind them stays.
unfoldable pub write_header : List ℕ → Header → List ℕ
write_header m h = header_bytes h ++ drop 28 m

-- The ranges of the fields.
pub record IsHeader (h : Header) : Type 0 where
  pub vban_u32 : h.vban < 2 ^ 32
  pub sr_u8 : h.format_sr < 256
  pub nbs_u8 : h.format_nbs < 256
  pub nbc_u8 : h.format_nbc < 256
  pub bit_u8 : h.format_bit < 256
  pub name_16 : length h.streamname ≡ 16
  pub nu_u32 : h.nu_frame < 2 ^ 32
  pub name_u8 : IsBytes h.streamname
