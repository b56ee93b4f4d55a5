-- ===== src/Packet/Check.antt =====
-- Which packets `packet_check` accepts.
use vban.Prelude.{
  ℕ, zero, suc, ◌+◌, ◌-◌, ◌*◌, ◌%◌, ◌^◌, ◌≤◌, ◌<◌, ◌≡◌, ◌↔◌, arith, List, some, true, take-take,
  get_or, take, bit_and-0x07, bit_and-0x08, bit_and-0x1f, bit_and-0xe0, bit_and-0xf0,
}
use vban.Prelude.Int.{pos}
use vban.Prelude.Memory.{IsBytes, slice}
use vban.Prelude.CString.{text_of, strncmp_eq, strncmp_eq_iff}
use vban.Vban.{bit_resolution_size}
use vban.Vban.Header.{Header, read_header}
use vban.Packet.{packet_check, check_header, check_protocol, packet_pcm_check}

-- The size in bytes of a sample of each of the formats.
abbrev pub sample_size_of : ℕ → ℕ
sample_size_of f = get_or bit_resolution_size f 0

-- What the VBAN protocol asks of an audio PCM packet of `size` bytes that belongs to a stream.
pub record IsAudioPacket (name packet : List ℕ) (size : ℕ) : Type 0 where
  pub magic :
      (get_or packet 0 0 ≡ b'V')
      × (get_or packet 1 0 ≡ b'B')
      × (get_or packet 2 0 ≡ b'A')
      × (get_or packet 3 0 ≡ b'N')
  pub same_name : text_of (take 16 name) ≡ text_of (slice packet 8 16)
  pub rate : get_or packet 4 0 < 21
  pub format : get_or packet 7 0 < 6
  pub whole :
      size
      ≡ 28 + (get_or packet 5 0 + 1) * (get_or packet 6 0 + 1) * sample_size_of (get_or packet 7 0)

sample_size_of-le : (f : ℕ) → sample_size_of f ≤ 8
sample_size_of-le zero = omega arith
sample_size_of-le (suc zero) = omega arith
sample_size_of-le (suc (suc zero)) = omega arith
sample_size_of-le (suc (suc (suc zero))) = omega arith
sample_size_of-le (suc (suc (suc (suc zero)))) = omega arith
sample_size_of-le (suc (suc (suc (suc (suc zero))))) = omega arith
sample_size_of-le (suc (suc (suc (suc (suc (suc zero)))))) = omega arith
sample_size_of-le (suc (suc (suc (suc (suc (suc (suc zero))))))) = omega arith
sample_size_of-le (suc (suc (suc (suc (suc (suc (suc (suc f)))))))) = omega arith

payload_fits : (a s c : ℕ) → a < 256 → s ≤ 8 → c < 256 → (a + 1) * s * (c + 1) < 2 ^ 64
payload_fits a s c ha hs hc = grind arith

pub sample_size_of-pos_iff : (f : ℕ) → (0 < sample_size_of f) ↔ (f < 6)
sample_size_of-pos_iff zero = omega arith
sample_size_of-pos_iff (suc zero) = omega arith
sample_size_of-pos_iff (suc (suc zero)) = omega arith
sample_size_of-pos_iff (suc (suc (suc zero))) = omega arith
sample_size_of-pos_iff (suc (suc (suc (suc zero)))) = omega arith
sample_size_of-pos_iff (suc (suc (suc (suc (suc zero))))) = omega arith
sample_size_of-pos_iff (suc (suc (suc (suc (suc (suc zero)))))) = omega arith
sample_size_of-pos_iff (suc (suc (suc (suc (suc (suc (suc zero))))))) = omega arith
sample_size_of-pos_iff (suc (suc (suc (suc (suc (suc (suc (suc f)))))))) = omega arith

pub pcm_check_iff :
    (h : Header) (size : ℕ)
    → (packet_pcm_check h size ≡ pos 0) ↔ (
        (h.format_sr % 32 < 21)
        × ((h.format_nbs + 1) * sample_size_of (h.format_bit % 8) * (h.format_nbc + 1) % 2 ^ 64
            ≡ size - 28))
unfolding packet_pcm_check
pcm_check_iff h size = rw (bit_and-0x07 h.format_bit, bit_and-0x1f h.format_sr) (ground arith)

pub header_iff :
    (name : List ℕ) (h : Header) (size : ℕ)
    → h.format_sr < 256
    → h.format_bit < 256
    → (check_header name h size ≡ pos 0) ↔ (
        (28 < size)
        × (h.vban ≡ 0x4e414256)
        × (strncmp_eq 16 name h.streamname ≡ true)
        × (h.format_sr < 32)
        × (h.format_bit < 8)
        × (packet_pcm_check h size ≡ pos 0))
unfolding check_header check_protocol
header_iff name h size sr bit =
    rw (bit_and-0x08 h.format_bit, bit_and-0xf0 h.format_bit bit, bit_and-0xe0 h.format_sr sr)
      (ground arith)

product_pos : (a s c : ℕ) → 0 < (a + 1) * s * (c + 1) → 0 < s
product_pos a zero c h = omega arith
product_pos a (suc s) c h = omega arith

pos_product : (a s c : ℕ) → 0 < s → 0 < (a + 1) * s * (c + 1)
pos_product a s c h = grind arith

-- The name of the stream, as the header's field and as the protocol's condition.
name_iff :
    (name packet : List ℕ)
    → (strncmp_eq 16 name (slice packet 8 16) ≡ true)
      ↔ (text_of (take 16 name) ≡ text_of (slice packet 8 16))
name_iff name packet = rw take-take at (strncmp_eq_iff 16 name (slice packet 8 16))

-- The size condition without its wrap and its mask.
module _ (nbs nbc bit size : ℕ) (hs : nbs < 256) (hc : nbc < 256) (hb : bit < 8) where
  pub whole_iff :
      ((28 < size) × ((nbs + 1) * sample_size_of (bit % 8) * (nbc + 1) % 2 ^ 64 ≡ size - 28))
      ↔ ((bit < 6) × (size ≡ 28 + (nbs + 1) * (nbc + 1) * sample_size_of bit))
  whole_iff = (there, back)
    where
      masked : bit % 8 ≡ bit
      masked = omega arith

      there :
          (28 < size) × ((nbs + 1) * sample_size_of (bit % 8) * (nbc + 1) % 2 ^ 64 ≡ size - 28)
          → (bit < 6) × (size ≡ 28 + (nbs + 1) * (nbc + 1) * sample_size_of bit)
      there (big, e) =
          let e' : (nbs + 1) * sample_size_of bit * (nbc + 1) % 2 ^ 64 ≡ size - 28 =
            rw masked at e in
          let fits = payload_fits nbs (sample_size_of bit) nbc hs (sample_size_of-le bit) hc in
          let full : (nbs + 1) * sample_size_of bit * (nbc + 1) ≡ size - 28 = omega arith in
          (
            (sample_size_of-pos_iff bit).0 (product_pos nbs (sample_size_of bit) nbc (omega arith)),
            omega arith,
          )

      back :
          (bit < 6) × (size ≡ 28 + (nbs + 1) * (nbc + 1) * sample_size_of bit)
          → (28 < size) × ((nbs + 1) * sample_size_of (bit % 8) * (nbc + 1) % 2 ^ 64 ≡ size - 28)
      back (format, e) =
          let fits = payload_fits nbs (sample_size_of bit) nbc hs (sample_size_of-le bit) hc in
          let some_bytes =
            pos_product nbs (sample_size_of bit) nbc ((sample_size_of-pos_iff bit).1 format) in
          (omega arith, rw masked (omega arith))

-- `packet_check` returns 0 on exactly the audio PCM packets of the stream, for every size that is
-- passed with a buffer of bytes.
pub packet_check_iff :
    (name packet : List ℕ) (size : ℕ)
    → IsBytes packet
    → (packet_check (some name) (some packet) size ≡ pos 0) ↔ IsAudioPacket name packet size
unfolding packet_check read_header
packet_check_iff name packet size bytes = (there, back)
  where
    h : Header
    h = read_header packet

    there : packet_check (some name) (some packet) size ≡ pos 0 → IsAudioPacket name packet size
    there e =
        let c = (header_iff name h size (bytes 4) (bytes 7)).0 e in
        let p = (pcm_check_iff h size).0 c.5 in
        let w =
          (whole_iff h.format_nbs h.format_nbc h.format_bit size (bytes 5) (bytes 6) c.4).0
            (c.0, p.1) in
        record {
          magic = omega (arith, c.1, bytes 0, bytes 1, bytes 2, bytes 3);
          same_name = (name_iff name packet).0 c.2;
          rate = omega (arith, c.3, p.0);
          format = w.0;
          whole = w.1;
        }

    back : IsAudioPacket name packet size → packet_check (some name) (some packet) size ≡ pos 0
    back v =
        let w =
          (whole_iff h.format_nbs h.format_nbc h.format_bit size (bytes 5) (bytes 6)
              (omega (arith, v.format))).1
            (v.format, v.whole) in
        (header_iff name h size (bytes 4) (bytes 7)).1 (
          w.0,
          omega (arith, v.magic),
          (name_iff name packet).1 v.same_name,
          omega (arith, v.rate),
          omega (arith, v.format),
          (pcm_check_iff h size).1 (omega (arith, v.rate), w.1),
        )
