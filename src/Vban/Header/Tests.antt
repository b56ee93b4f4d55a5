-- ===== src/Vban/Header/Tests.antt =====
-- A header stored and read back on concrete bytes.
use vban.Prelude.{◌≡◌, refl, ◌∷◌, ◌++◌, drop, replicate}
use vban.Vban.Header.{Header, read_header, write_header}
use vban.Samples.{stream_name, packet}

abbrev mono : Header
mono = record {
  vban = 0x4e414256;
  format_sr = 16;
  format_nbs = 255;
  format_nbc = 0;
  format_bit = 2;
  streamname = stream_name ++ replicate 9 0;
  nu_frame = 70000;
}

-- The fields stand in the order of `struct VBanHeader`, little-endian, in front of the other bytes.
stored_mono :
    write_header packet mono
    ≡ b'V'
      ∷ b'B'
      ∷ b'A'
      ∷ b'N'
      ∷ 16
      ∷ 255
      ∷ 0
      ∷ 2
      ∷ (stream_name ++ (replicate 9 0 ++ (112 ∷ 17 ∷ 1 ∷ 0 ∷ drop 28 packet)))
unfolding write_header
stored_mono = refl

read_mono : read_header (write_header packet mono) ≡ mono
unfolding read_header write_header
read_mono = refl
