-- ===== src/Packet/Tests.antt =====
-- Packets on concrete bytes.
use vban.Prelude.{
  ℕ, ◌+◌, ◌*◌, ◌%◌, ◌^◌, ◌≤◌, ◌<◌, ◌≡◌, ◌↔◌, refl, arith, List, some, none, drop, replicate,
}
use vban.Prelude.Int.{pos, einval}
use vban.Prelude.Memory.{IsBytes}
use vban.Prelude.CString.{strncmp_eq, codes}
use vban.Vban.Header.{read_header}
use vban.Stream.{StreamConfig}
use vban.Packet.{
  packet_check, check_header, check_protocol, packet_pcm_check, packet_get_max_payload_size,
  packet_get_stream_config, packet_init_header, packet_set_new_content, frame_size, no_config,
}
use vban.Packet.Check.{IsAudioPacket, packet_check_iff, sample_size_of}
use vban.Packet.Config.{IsCarried, accepted_config}
use vban.Packet.Payload.{max_payload_lem, max_payload-none_iff}
use vban.Packet.Prepared.{IsPrepared, frame_bytes}
use vban.Packet.Emit.{init_header-IsPrepared, set_content_accepted, get_config_prepared}
use vban.Samples.{
  stereo-IsCarried, stream_name, packet, packet-IsBytes, packet-IsPrepared, stereo, all_bytes_sound,
}

-- tests

check_own : packet_check (some stream_name) (some packet) 36 ≡ pos 0
unfolding packet_check check_header check_protocol packet_pcm_check read_header strncmp_eq
check_own = refl

check_short : packet_check (some stream_name) (some packet) 35 ≡ einval
unfolding packet_check check_header check_protocol packet_pcm_check read_header strncmp_eq
check_short = refl

check_other : packet_check (some (codes "Stream2")) (some packet) 36 ≡ einval
unfolding packet_check check_header check_protocol packet_pcm_check read_header strncmp_eq
check_other = refl

max_payload : packet_get_max_payload_size (some packet) ≡ some (pos 1024)
unfolding packet_get_max_payload_size frame_size read_header
max_payload = refl

-- samples

abbrev zeros : List ℕ
zeros = replicate 36 0

zeros-IsBytes : IsBytes zeros
zeros-IsBytes = all_bytes_sound zeros refl

stream_name-IsBytes : IsBytes stream_name
stream_name-IsBytes = all_bytes_sound stream_name refl

packet_format : (read_header packet).format_bit % 8 < 6
unfolding read_header
packet_format = omega arith

-- witnesses

packet_check_iff_example :
    (packet_check (some stream_name) (some packet) 36 ≡ pos 0) ↔ IsAudioPacket stream_name packet 36
packet_check_iff_example = packet_check_iff stream_name packet 36 packet-IsBytes

accepted_config_example :
    (c : StreamConfig) × (packet_get_stream_config (some packet) (some no_config) ≡ some (pos 0, c))
    × IsCarried c
    × ((n : ℕ) × (1 ≤ n) × (n ≤ 256) × (36 ≡ 28 + n * (c.nb_channels * sample_size_of c.bit_fmt)))
accepted_config_example = accepted_config stream_name packet 36 no_config packet-IsBytes check_own

max_payload_lem_example :
    (n : ℕ) × (packet_get_max_payload_size (some packet)
      ≡ some (pos (n * frame_size (read_header packet))))
    × (n ≤ 256)
    × (n * frame_size (read_header packet) ≤ 1436)
    × (n < 256 → 1436 < (n + 1) * frame_size (read_header packet))
max_payload_lem_example = max_payload_lem packet packet_format

max_payload-none_iff_example :
    (packet_get_max_payload_size (some packet) ≡ none) ↔ (6 ≤ (read_header packet).format_bit % 8)
max_payload-none_iff_example = max_payload-none_iff packet

init_header-IsPrepared_example :
    (m' : List ℕ) × (packet_init_header (some zeros) (some stereo) stream_name ≡ (pos 0, some m'))
    × IsPrepared stream_name stereo m'
    × ((read_header m').nu_frame ≡ 0)
    × (drop 28 m' ≡ drop 28 zeros)
init_header-IsPrepared_example =
    init_header-IsPrepared zeros stream_name stereo zeros-IsBytes (omega arith) stream_name-IsBytes
      stereo-IsCarried (omega arith) refl

set_content_accepted_example :
    (m' : List ℕ) × (packet_set_new_content (some packet) (2 * frame_bytes stereo)
      ≡ some (pos 0, some m'))
    × IsPrepared stream_name stereo m'
    × (packet_check (some stream_name) (some m') (28 + 2 * frame_bytes stereo) ≡ pos 0)
    × ((read_header m').nu_frame ≡ ((read_header packet).nu_frame + 1) % 2 ^ 32)
    × (drop 28 m' ≡ drop 28 packet)
set_content_accepted_example =
    set_content_accepted stream_name packet stereo 2 packet-IsPrepared (omega arith) (omega arith)

get_config_prepared_example :
    packet_get_stream_config (some packet) (some no_config) ≡ some (pos 0, stereo)
get_config_prepared_example =
    get_config_prepared stream_name packet stereo no_config packet-IsPrepared
