-- ===== src/Packet/Emit.antt =====
-- The packets that the emitter builds: `packet_init_header` once, then `packet_set_new_content` for
-- each block of audio.
use vban.Prelude.{
  ℕ, ◌+◌, ◌*◌, ◌%◌, ◌^◌, ◌≤◌, ◌≡◌, refl, arith, List, some, length, get_or, drop, bit_and-0x07,
  bit_and-0x1f,
}
use vban.Prelude.Int.{pos}
use vban.Prelude.Memory.{IsBytes}
use vban.Prelude.CString.{text_of}
use vban.Vban.Header.{read_header, write_header}
use vban.Vban.Header.Laws.{
  read_header-write_header, read_header-IsHeader, write_header-IsBytes, length-write_header,
  drop-write_header,
}
use vban.Stream.{StreamConfig}
use vban.Packet.{
  packet_check, packet_get_stream_config, packet_init_header, packet_set_new_content, init_fields,
  content_fields,
}
use vban.Packet.Config.{IsCarried}
use vban.Packet.Prepared.{
  IsPrepared, frame_bytes, accepted, init_fields-IsHeader, content_fields-IsHeader,
  init_fields-Announces, frame_size-frame_bytes, frame_bytes-pos, content_fields-Announces,
  frames_byte,
}

-- `packet_init_header` prepares a buffer for every stream that the protocol can carry, whose name has
-- at most 15 characters, if the last byte of the buffer's name field is 0. The payload stays.
pub init_header-IsPrepared :
    (m name : List ℕ) (c : StreamConfig)
    → IsBytes m
    → 28 ≤ length m
    → IsBytes name
    → IsCarried c
    → length (text_of name) ≤ 15
    → get_or m 23 0 ≡ 0
    → (m' : List ℕ) × (packet_init_header (some m) (some c) name ≡ (pos 0, some m'))
      × IsPrepared name c m'
      × ((read_header m').nu_frame ≡ 0)
      × (drop 28 m' ≡ drop 28 m)
unfolding packet_init_header
init_header-IsPrepared m name c b fits bn v short zero_end =
    let h = init_fields (read_header m) c name in
    let vh = init_fields-IsHeader m name c b fits bn in
    let back = read_header-write_header m h vh in
    (
      write_header m h,
      refl,
      record {
        bytes = write_header-IsBytes m h b vh;
        room = rw (length-write_header m h vh fits) fits;
        announces = rw back (init_fields-Announces m name c v short zero_end);
      },
      rw back,
      drop-write_header m h vh,
    )

-- From a prepared buffer and a payload of 1 to 256 whole frames, `packet_set_new_content` makes a
-- packet that `packet_check` accepts under the stream's name. The buffer stays prepared, its payload
-- stays, and the frame number grows by one, modulo 2 ^ 32.
pub set_content_accepted :
    (name m : List ℕ) (c : StreamConfig) (frames : ℕ)
    → IsPrepared name c m
    → 1 ≤ frames
    → frames ≤ 256
    → (m' : List ℕ) × (packet_set_new_content (some m) (frames * frame_bytes c)
        ≡ some (pos 0, some m'))
      × IsPrepared name c m'
      × (packet_check (some name) (some m') (28 + frames * frame_bytes c) ≡ pos 0)
      × ((read_header m').nu_frame ≡ ((read_header m).nu_frame + 1) % 2 ^ 32)
      × (drop 28 m' ≡ drop 28 m)
unfolding packet_set_new_content packet_check
set_content_accepted name m c frames p some_frame le =
    let h = read_header m in
    let size = frames * frame_bytes c in
    let v = read_header-IsHeader m p.bytes p.room in
    let h' = content_fields h size in
    let v' = content_fields-IsHeader h size v in
    let back = read_header-write_header m h' v' in
    let nbs = frames_byte name c h frames p.announces some_frame le in
    let a' = content_fields-Announces name c h size p.announces in
    (
      write_header m h',
      ground (arith, frame_bytes-pos p.announces, frame_size-frame_bytes p.announces),
      record {
        bytes = write_header-IsBytes m h' p.bytes v';
        room = rw (length-write_header m h' v' p.room) p.room;
        announces = rw back a';
      },
      rw back (accepted name c h' frames a' v'.nbc_u8 nbs le),
      rw back,
      drop-write_header m h' v',
    )

-- The receiver of a prepared packet reads the sender's parameters.
pub get_config_prepared :
    (name m : List ℕ) (c old : StreamConfig)
    → IsPrepared name c m
    → packet_get_stream_config (some m) (some old) ≡ some (pos 0, c)
unfolding packet_get_stream_config
get_config_prepared name m c old p =
    let a = p.announces in
    let h = read_header m in
    let sr_lem : h.format_sr % 32 ≡ h.format_sr = omega (arith, a.rate_fits) in
    let bit_lem : h.format_bit % 8 ≡ c.bit_fmt = omega (arith, a.format, a.has_size) in
    rw (bit_and-0x1f, bit_and-0x07, sr_lem, bit_lem, a.rate, a.channels)
