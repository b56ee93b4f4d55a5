-- ===== src/Emitter/Tests.antt =====
-- The emitter on a concrete network and device: one packet, and a whole run.
use vban.Prelude.{
  still_running, exited, Option, none, ℕ, ◌+◌, ◌*◌, ◌%◌, ◌^◌, ◌≤◌, ◌≡◌, refl, arith, List, [], ◌∷◌,
  ◌++◌, none, some, true, length, replicate, not,
}
use vban.Prelude.Int.{ℤ, pos, is_negative}
use vban.Prelude.Memory.{slice, splice, write_block, read_block}
use vban.Prelude.CString.{strncmp_eq, strncpy}
use vban.Vban.Header.{read_header, write_header}
use vban.Packet.{
  packet_check, check_header, check_protocol, packet_pcm_check, packet_init_header,
  packet_set_new_content, packet_get_max_payload_size, frame_size, vban_sr_from_value, sr_from,
}
use vban.Packet.Prepared.{IsPrepared, frame_bytes}
use vban.Audio.{
  Audio, no_map, audio_init, init_with, audio_release, audio_set_map_config,
  audio_set_stream_config, audio_get_stream_config, change_stream, open_stream, get_device_config,
  audio_read, store_read, read_in, map_in, map_output_size, map_reverse_input_size,
}
use vban.Audio.Interface.{audio_backend_get_by_name}
use vban.Audio.Interface.{audio_in, BackendItem, initialised}
use vban.Socket.{
  socket_out, socket_init, socket_open, socket_close, create_and_bind, with_descriptor,
  bind_or_broadcast, socket_is_broadcast_address, socket_write, socket_release,
}
use vban.Emitter.{
  EmitterConfig, send_packet, on_audio, emitter_step, emitter_loop, EmitterRun, run_emitter,
  prepare_emitter, emitter_main,
}
use vban.Emitter.Capture.{prepare_emitter_overruns}
use vban.Emitter.Laws.{Arrives, send_packet_lem}
use vban.Samples.{
  Queue, stream_name, packet, packet-IsPrepared, stereo, recorder, idle, Recorder, new_player,
  player_config, wire, peer, receiving, empty,
}

-- tests

abbrev config : EmitterConfig
config = record {
  socket = record { direction = socket_out; ip_address = peer; port = pos 6980 };
  audio = record player_config { direction = audio_in };
  stream = stereo;
  map = no_map;
  stream_name = stream_name;
}

abbrev item : BackendItem Recorder
item = record { name = []; init_function = initialised idle }

-- 256 frames of the device's samples, behind the header of the first packet.
abbrev first_packet : List ℕ
first_packet =
    b'V'
    ∷ b'B'
    ∷ b'A'
    ∷ b'N'
    ∷ 3
    ∷ 255
    ∷ 1
    ∷ 1
    ∷ (stream_name ++ (replicate 9 0 ++ (1 ∷ 0 ∷ 0 ∷ 0 ∷ replicate 1024 7)))

-- The last value of `ret`, and the network, of an emitter that still runs.
abbrev sent_by : Option (EmitterRun recorder wire) → Option (ℤ × Queue)
sent_by (some (still_running (ret, e, w))) = some (ret, w)
sent_by (some (exited state)) = none
sent_by none = none

sends_packet :
    sent_by (emitter_main recorder wire true true config item [] 1 empty)
    ≡ some (pos 1052, record { inbox = []; outbox = first_packet ∷ [] })
unfolding emitter_main prepare_emitter run_emitter emitter_loop emitter_step on_audio send_packet
    socket_init socket_open socket_close create_and_bind with_descriptor bind_or_broadcast
    socket_is_broadcast_address socket_write socket_release audio_init init_with
    audio_backend_get_by_name audio_release audio_set_map_config audio_set_stream_config
    audio_get_stream_config change_stream open_stream get_device_config audio_read store_read
    read_in map_in map_output_size map_reverse_input_size packet_check check_header check_protocol
    packet_pcm_check packet_init_header packet_set_new_content packet_get_max_payload_size
    frame_size vban_sr_from_value sr_from read_header write_header strncmp_eq strncpy splice
    write_block read_block
sends_packet = refl

-- One of four channels: the payload has 512 bytes, and the device's frames 2048.
abbrev first_of_four : Audio Recorder
first_of_four = record {
  config = record player_config { direction = audio_in };
  stream = record { nb_channels = 4; sample_rate = 48000; bit_fmt = 1 };
  map = record { channels = replicate 256 0; nb_channels = 1 };
  device = idle;
  buffer = replicate 1436 0;
}

abbrev mono_header : List ℕ
mono_header = b'V' ∷ b'B' ∷ b'A' ∷ b'N' ∷ 3 ∷ 0 ∷ 0 ∷ 1 ∷ (stream_name ++ replicate 1449 0)

mono_prepared :
    packet_init_header
      (some (replicate 1464 0))
      (some (record { nb_channels = 1; sample_rate = 48000; bit_fmt = 1 }))
      stream_name
    ≡ (pos 0, some mono_header)
unfolding packet_init_header vban_sr_from_value sr_from read_header write_header strncpy
mono_prepared = refl

mono_size : packet_get_max_payload_size (some mono_header) ≡ some (pos 512)
unfolding packet_get_max_payload_size frame_size read_header
mono_size = refl

-- witnesses

prepare_emitter_overruns_example :
    prepare_emitter recorder wire 1 config (some receiving) (some first_of_four) empty ≡ none
prepare_emitter_overruns_example =
    prepare_emitter_overruns recorder wire config (some receiving) first_of_four mono_header
      (replicate 2048 7) idle 0 256 2 empty refl (omega arith) (omega arith) mono_prepared mono_size
      (omega arith) refl (omega arith) (omega arith) (omega arith) refl refl refl (omega arith)

send_packet_lem_example :
    (sent : List ℕ) × (let (ret, w') =
        socket_write wire
          (some receiving)
          (some (slice sent 0 (28 + 2 * frame_bytes stereo)))
          empty in
      send_packet wire stream_name
        (record { socket = some receiving; audio = some new_player; buffer = packet })
        (2 * frame_bytes stereo)
        empty
      ≡ some (
        not (is_negative ret),
        ret,
        record { socket = some receiving; audio = some new_player; buffer = sent },
        w',
      ))
    × IsPrepared stream_name stereo sent
    × ((read_header sent).nu_frame ≡ ((read_header packet).nu_frame + 1) % 2 ^ 32)
    × ((dest : List ℕ)
        → 28 + 2 * frame_bytes stereo ≤ length dest
        → Arrives stream_name stereo
            (2 * frame_bytes stereo)
            (slice packet 28 (2 * frame_bytes stereo))
            sent
            dest)
send_packet_lem_example =
    send_packet_lem wire stream_name packet stereo 2 (some receiving) (some new_player) empty
      packet-IsPrepared (omega arith) (omega arith) (omega arith)
