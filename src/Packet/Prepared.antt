-- ===== src/Packet/Prepared.antt =====
-- What it means that a buffer is prepared for a stream, and the headers that the emitter stores.
use vban.Prelude.{
  ℕ, zero, suc, ◌+◌, ◌*◌, ◌/◌, ◌%◌, ◌≤◌, ◌<◌, ◌≡◌, refl, ◌∙◌, ap, arith, List, [], ◌∷◌, some, true,
  length, get_or, get_elem?, get_elem?-lt, drop, length-append, length-drop,
}
use vban.Prelude.Int.{pos}
use vban.Prelude.Memory.{slice, get_or-slice, IsBytes, append-IsBytes, drop-IsBytes}
use vban.Prelude.CString.{
  text_of, char_of, strncmp_eq, strncpy, length-strncpy, strncpy-IsBytes, strncmp_eq-strncpy,
}
use vban.Vban.{header_fourc, sr_list}
use vban.Vban.Header.{Header, IsHeader, read_header}
use vban.Vban.Header.Laws.{read_header-IsHeader}
use vban.Stream.{StreamConfig}
use vban.Packet.{check_header, init_fields, content_fields, frame_size, vban_sr_from_value}
use vban.Packet.Check.{sample_size_of, sample_size_of-pos_iff, header_iff, pcm_check_iff, whole_iff}
use vban.Packet.Config.{IsCarried, vban_sr_from_value_lem}
use vban.Packet.Payload.{frame_size_lem}

-- A header that says: this stream, with these parameters.
pub record Announces (name : List ℕ) (c : StreamConfig) (h : Header) : Type 0 where
  pub magic : h.vban ≡ header_fourc
  pub same_name : strncmp_eq 16 name h.streamname ≡ true
  pub rate_fits : h.format_sr < 21
  pub rate : get_elem? sr_list h.format_sr ≡ some c.sample_rate
  pub channels : h.format_nbc + 1 ≡ c.nb_channels
  pub format : h.format_bit ≡ c.bit_fmt
  pub has_size : c.bit_fmt < 6

-- A buffer that the emitter has prepared for its stream.
pub record IsPrepared (name : List ℕ) (c : StreamConfig) (m : List ℕ) : Type 0 where
  pub bytes : IsBytes m
  pub room : 28 ≤ length m
  pub announces : Announces name c (read_header m)

-- The bytes of one frame: a sample for each channel.
abbrev pub frame_bytes : StreamConfig → ℕ
frame_bytes c = c.nb_channels * sample_size_of c.bit_fmt

-- A header that announces a stream, over a size of whole frames, is accepted.
pub accepted :
    (name : List ℕ) (c : StreamConfig) (h : Header) (frames : ℕ)
    → Announces name c h
    → h.format_nbc < 256
    → h.format_nbs + 1 ≡ frames
    → frames ≤ 256
    → check_header name h (28 + frames * frame_bytes c) ≡ pos 0
accepted name c h frames a nbc nbs le =
    let sizes : sample_size_of h.format_bit ≡ sample_size_of c.bit_fmt =
      ap sample_size_of a.format in
    let bit : h.format_bit < 6 = omega (arith, a.format, a.has_size) in
    let size_lem : 28 + frames * frame_bytes c
        ≡ 28 + (h.format_nbs + 1) * (h.format_nbc + 1) * sample_size_of h.format_bit =
      rw (sizes, a.channels, nbs) (omega arith) in
    let w =
      (whole_iff h.format_nbs h.format_nbc h.format_bit (28 + frames * frame_bytes c) (omega arith)
          nbc (omega arith)).1
        (bit, size_lem) in
    (header_iff name h (28 + frames * frame_bytes c) (omega (arith, a.rate_fits)) (omega arith)).1 (
      w.0,
      a.magic,
      a.same_name,
      omega (arith, a.rate_fits),
      omega arith,
      (pcm_check_iff h (28 + frames * frame_bytes c)).1 (omega (arith, a.rate_fits), w.1),
    )

pub init_fields-IsHeader :
    (m name : List ℕ) (c : StreamConfig)
    → IsBytes m
    → 28 ≤ length m
    → IsBytes name
    → IsHeader (init_fields (read_header m) c name)
init_fields-IsHeader m name c b fits bn =
    let v = read_header-IsHeader m b fits in
    let old = (read_header m).streamname in
    record {
      vban_u32 = omega arith;
      sr_u8 = omega arith;
      nbs_u8 = v.nbs_u8;
      nbc_u8 = omega arith;
      bit_u8 = omega arith;
      name_16 = omega (
        arith,
        length-append (strncpy 15 name) (drop 15 old),
        length-strncpy 15 name,
        length-drop 15 old,
        v.name_16,
      );
      nu_u32 = omega arith;
      name_u8 =
          append-IsBytes (strncpy 15 name) (drop 15 old) (strncpy-IsBytes 15 name bn)
            (drop-IsBytes 15 old v.name_u8);
    }

pub content_fields-IsHeader : (h : Header) (n : ℕ) → IsHeader h → IsHeader (content_fields h n)
content_fields-IsHeader h n v = record {
  vban_u32 = v.vban_u32;
  sr_u8 = v.sr_u8;
  nbs_u8 = omega arith;
  nbc_u8 = v.nbc_u8;
  bit_u8 = v.bit_u8;
  name_16 = v.name_16;
  nu_u32 = omega arith;
  name_u8 = v.name_u8;
}

pub char_of-drop : (n : ℕ) (m : List ℕ) → char_of (drop n m) ≡ get_or m n 0
char_of-drop zero [] = refl
char_of-drop zero (x ∷ m) = refl
char_of-drop (suc n) [] = refl
char_of-drop (suc n) (x ∷ m) = char_of-drop n m

pub init_fields-Announces :
    (m name : List ℕ) (c : StreamConfig)
    → IsCarried c
    → length (text_of name) ≤ 15
    → get_or m 23 0 ≡ 0
    → Announces name c (init_fields (read_header m) c name)
unfolding read_header
init_fields-Announces m name c v short zero_end = record {
  magic = refl;
  same_name =
      strncmp_eq-strncpy 15 name (drop 15 (slice m 8 16)) short
        (char_of-drop 15 (slice m 8 16) ∙ get_or-slice m 8 16 15 (omega arith) ∙ zero_end);
  rate_fits = rw (found, small) in_table;
  rate = rw (found, small) v.rate;
  channels = omega (arith, v.some_channel, v.channels);
  format = omega (arith, v.format);
  has_size = v.format;
}
  where
    found : vban_sr_from_value c.sample_rate ≡ v.rate_index
    found = (vban_sr_from_value_lem c.sample_rate v.rate_index).1 v.rate

    in_table : v.rate_index < 21
    in_table = get_elem?-lt sr_list v.rate_index v.rate

    small : v.rate_index % 256 ≡ v.rate_index
    small = omega (arith, in_table)

pub frame_size-frame_bytes :
    {name : List ℕ} {c : StreamConfig} {h : Header}
    → Announces name c h
    → frame_size h ≡ frame_bytes c
frame_size-frame_bytes {c} {h} a =
    let small : h.format_bit % 8 ≡ c.bit_fmt = omega (arith, a.format, a.has_size) in
    rw (frame_size_lem, small, a.channels)

pub frame_bytes-pos :
    {name : List ℕ} {c : StreamConfig} {h : Header} → Announces name c h → 0 < frame_bytes c
frame_bytes-pos {c} a =
    let sized = (sample_size_of-pos_iff c.bit_fmt).1 a.has_size in
    let counted : 0 < c.nb_channels = omega (arith, a.channels) in grind (arith, sized, counted)

pub content_fields-Announces :
    (name : List ℕ) (c : StreamConfig) (h : Header) (n : ℕ)
    → Announces name c h
    → Announces name c (content_fields h n)
content_fields-Announces name c h n a = record {
  magic = a.magic;
  same_name = a.same_name;
  rate_fits = a.rate_fits;
  rate = a.rate;
  channels = a.channels;
  format = a.format;
  has_size = a.has_size;
}

-- The byte of the number of samples stands for the number of frames.
pub frames_byte :
    (name : List ℕ) (c : StreamConfig) (h : Header) (frames : ℕ)
    → Announces name c h
    → 1 ≤ frames
    → frames ≤ 256
    → (content_fields h (frames * frame_bytes c)).format_nbs + 1 ≡ frames
frames_byte name c h frames a some_frame le =
    let quotient : frames * frame_bytes c / frame_bytes c ≡ frames =
      grind (arith, frame_bytes-pos a) in
    rw (frame_size-frame_bytes a, quotient) (omega arith)
