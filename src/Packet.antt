-- ===== src/Packet.antt =====
-- src/common/packet.c: the header of a packet written, completed, checked and read. A pointer that
-- may be null is an `Option`; an outer `none` of a result is a fault (undefined behaviour).
pub mod Check
pub mod Config
pub mod Payload
pub mod Prepared
pub mod Emit
pub mod Content
pub mod Datagrams
pub mod Copied
mod Tests
use vban.Prelude.{
  ℕ, ◌+◌, ◌-◌, ◌*◌, ◌/◌, ◌%◌, ◌^◌, bit_and, List, [], ◌∷◌, ◌++◌, Option, none, some, true, false,
  get_or, get_elem?, drop, ltb, leb, ◌==◌, if◌then◌else◌, ◌>>=◌, not,
}
use vban.Prelude.Int.{ℤ, pos, einval}
use vban.Prelude.CString.{strncmp_eq, strncpy}
use vban.Vban.{
  header_size, stream_name_size, data_max_size, samples_max_nb, header_fourc, sr_list, sr_maxnumber,
  Protocol, audio, protocol_of, bit_resolution_max, bit_resolution_size, codec_pcm,
}
use vban.Vban.Header.{Header, read_header, write_header}
use vban.Stream.{StreamConfig}

-- `packet_pcm_check`; `size` is above the header's size.
unfoldable pub packet_pcm_check : Header → ℕ → ℤ
packet_pcm_check hdr size =
    let bit_resolution = bit_and hdr.format_bit 0x07 in
    let sample_rate = bit_and hdr.format_sr 0x1f in
    let nb_samples = hdr.format_nbs + 1 in
    let nb_channels = hdr.format_nbc + 1 in
    let sample_size = get_or bit_resolution_size bit_resolution 0 in
    let payload_size = nb_samples * sample_size * nb_channels % 2 ^ 64 in
    if leb bit_resolution_max bit_resolution
    then einval
    else if leb sr_maxnumber sample_rate
    then einval
    else if not (payload_size == size - header_size)
    then einval
    else pos 0

-- The `switch` of `packet_check` on the protocol.
unfoldable pub check_protocol : Option Protocol → ℕ → Header → ℕ → ℤ
check_protocol (some Protocol.audio) codec hdr size =
    if codec == codec_pcm then packet_pcm_check hdr size else einval
check_protocol (some _) codec hdr size = einval
check_protocol none codec hdr size = einval

-- `packet_check` behind the test of its pointers.
unfoldable pub check_header : List ℕ → Header → ℕ → ℤ
check_header streamname hdr size =
    if leb size header_size
    then einval
    else if not (hdr.vban == header_fourc)
    then einval
    else if not (strncmp_eq stream_name_size streamname hdr.streamname)
    then einval
    else if not (bit_and hdr.format_bit 0x08 == 0)
    then einval
    else check_protocol (protocol_of (bit_and hdr.format_sr 0xe0)) (bit_and hdr.format_bit 0xf0) hdr
        size

unfoldable pub packet_check : Option (List ℕ) → Option (List ℕ) → ℕ → ℤ
packet_check none buffer size = einval
packet_check (some streamname) none size = einval
packet_check (some streamname) (some buffer) size =
    check_header streamname (read_header buffer) size

-- `(format_nbc + 1) * VBanBitResolutionSize[format_bit & VBAN_BIT_RESOLUTION_MASK]`
unfoldable pub frame_size : Header → ℕ
frame_size hdr = (hdr.format_nbc + 1) * get_or bit_resolution_size (bit_and hdr.format_bit 0x07) 0

-- The division faults at the formats whose size is 0.
unfoldable pub packet_get_max_payload_size : Option (List ℕ) → Option ℤ
unfolding frame_size
packet_get_max_payload_size none = some einval
packet_get_max_payload_size (some buffer) =
    let sample_size = frame_size (read_header buffer) in
    let sample_count = data_max_size / sample_size in
    if sample_size == 0
    then none
    else if ltb samples_max_nb sample_count
    then some (pos (samples_max_nb * sample_size))
    else some (pos (sample_count * sample_size))

abbrev pub no_config : StreamConfig
no_config = record { nb_channels = 0; sample_rate = 0; bit_fmt = 0 }

-- The `memset` comes before the test of the pointers, so a null `stream_config` faults. So does a
-- sample rate behind the end of the table.
unfoldable pub packet_get_stream_config :
    Option (List ℕ) → Option StreamConfig → Option (ℤ × StreamConfig)
packet_get_stream_config buffer none = none
packet_get_stream_config none (some config) = some (einval, no_config)
packet_get_stream_config (some buffer) (some config) =
    let hdr = read_header buffer in
    get_elem? sr_list (bit_and hdr.format_sr 0x1f) >>= λ rate. some (
      pos 0,
      record {
        nb_channels = hdr.format_nbc + 1;
        sample_rate = rate;
        bit_fmt = bit_and hdr.format_bit 0x07;
      },
    )

-- The `while` loop of `vban_sr_from_value`, from `index` on: the rates left, and the index.
unfoldable pub sr_from : List ℕ → ℕ → ℕ → ℕ
sr_from [] value index = index
sr_from (rate ∷ rates) value index =
    if value == rate then index else sr_from rates value (index + 1)

unfoldable pub vban_sr_from_value : ℕ → ℕ
unfolding sr_from
vban_sr_from_value value = sr_from sr_list value 0

-- The header that `packet_init_header` stores over what the buffer holds.
abbrev pub init_fields : Header → StreamConfig → List ℕ → Header
init_fields hdr config streamname = record hdr {
  vban = header_fourc;
  format_nbc = (config.nb_channels + 2 ^ 32 - 1) % 2 ^ 32 % 256;
  format_sr = vban_sr_from_value config.sample_rate % 256;
  format_bit = config.bit_fmt % 256;
  streamname =
      strncpy (stream_name_size - 1) streamname ++ drop (stream_name_size - 1) hdr.streamname;
  nu_frame = 0;
}

unfoldable pub packet_init_header :
    Option (List ℕ) → Option StreamConfig → List ℕ → ℤ × Option (List ℕ)
unfolding vban_sr_from_value
packet_init_header none config streamname = (einval, none)
packet_init_header (some buffer) none streamname = (einval, some buffer)
packet_init_header (some buffer) (some config) streamname =
    (pos 0, some (write_header buffer (init_fields (read_header buffer) config streamname)))

-- The header that `packet_set_new_content` stores: the samples per frame, less 1, as a byte, and
-- the next frame number.
abbrev pub content_fields : Header → ℕ → Header
content_fields hdr payload_size = record hdr {
  format_nbs = (payload_size / frame_size hdr + 2 ^ 64 - 1) % 2 ^ 64 % 256;
  nu_frame = (hdr.nu_frame + 1) % 2 ^ 32;
}

unfoldable pub packet_set_new_content : Option (List ℕ) → ℕ → Option (ℤ × Option (List ℕ))
unfolding frame_size
packet_set_new_content none payload_size = some (einval, none)
packet_set_new_content (some buffer) payload_size =
    let hdr = read_header buffer in
    if frame_size hdr == 0
    then none
    else some (pos 0, some (write_header buffer (content_fields hdr payload_size)))
