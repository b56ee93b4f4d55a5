-- ===== src/Receptor/Tests.antt =====
-- The receptor on a concrete network and device: one packet, and whole runs.
use vban.Prelude.{
  exited, drop, ℕ, ◌*◌, ◌<◌, ◌↔◌, ◌++◌, List, replicate, ◌≡◌, inl, refl, arith, Bool, [], ◌∷◌, some,
  none, true, false,
}
use vban.Prelude.Int.{pos, negsuc}
use vban.Prelude.Memory.{slice, splice, write_block, read_block}
use vban.Prelude.CString.{strncmp_eq}
use vban.Vban.Header.{read_header}
use vban.Packet.{
  packet_check, check_header, check_protocol, packet_pcm_check, packet_get_stream_config,
}
use vban.Audio.{
  no_map, audio_init, init_with, audio_release, audio_set_map_config, audio_set_stream_config,
  audio_write, change_stream, open_stream, get_device_config, map_out, write_out, map_output_size,
  map_reverse_result,
}
use vban.Audio.Interface.{BackendItem, initialised, audio_backend_get_by_name}
use vban.Socket.{
  socket_init, socket_open, socket_close, create_and_bind, with_descriptor, bind_or_broadcast,
  socket_read, socket_release, receive_from, on_received,
}
use vban.Socket.Opening.{receiver}
use vban.Receptor.{
  Receptor, ReceptorConfig, compute_size, goes_on, play, handle_packet, on_read, receptor_step,
  receptor_loop, run_receptor, receptor_main,
}
use vban.Packet.{no_config}
use vban.Packet.Check.{sample_size_of}
use vban.Stream.{StreamConfig}
use vban.Audio.{Audio}
use vban.Audio.Channels.{MapConfig, map_channels}
use vban.Receptor.Mapped.{handle_packet-none_iff, handle_packet_maps}
use vban.Receptor.Laws.{Handled, handle_packet-Handled}
use vban.Samples.{
  stream_name, packet, packet-IsBytes, stereo, frames, recorder, recorder-BackendLaws, IsOpened,
  recorder_opens, idle, Recorder, new_player, player, swapped_player, swap, player_config, wire,
  peer, receiving, empty, two_waiting,
}

-- tests

sizes :
    compute_size 0 ∷ compute_size 1 ∷ compute_size 4 ∷ compute_size 9 ∷ []
    ≡ 1536 ∷ 3072 ∷ 24576 ∷ 1464 ∷ []
unfolding compute_size
sizes = refl

abbrev config : ReceptorConfig
config = record {
  socket = receiver peer (pos 6980);
  audio = player_config;
  map = no_map;
  stream_name = stream_name;
}

abbrev item : BackendItem Recorder
item = record { name = []; init_function = initialised idle }

-- A datagram of another address is passed over, the packet is played, and the first error of the
-- network ends the run.
plays_packet :
    receptor_main recorder wire true true config item [] 5 3 two_waiting
    ≡ some (exited (pos 0, some (record { written = frames ∷ []; opened = stereo }), empty))
unfolding receptor_main run_receptor receptor_loop receptor_step on_read handle_packet play goes_on
    socket_init socket_open socket_close create_and_bind with_descriptor bind_or_broadcast
    socket_read socket_release receive_from on_received audio_init init_with
    audio_backend_get_by_name audio_release audio_set_map_config audio_set_stream_config
    change_stream open_stream get_device_config audio_write map_out write_out map_output_size
    map_reverse_result packet_check check_header check_protocol packet_pcm_check
    packet_get_stream_config read_header strncmp_eq splice write_block read_block
plays_packet = refl

no_memory :
    receptor_main recorder wire true false config item [] 5 3 two_waiting
    ≡ some (exited (negsuc 11, none, two_waiting))
unfolding receptor_main socket_init socket_open socket_close create_and_bind with_descriptor
    bind_or_broadcast audio_init
no_memory = refl

-- 256 frames of one channel with 24 bits, which a map of two channels makes 1536 bytes.
abbrev mono : StreamConfig
mono = record { nb_channels = 1; sample_rate = 48000; bit_fmt = 2 }

abbrev mono_packet : List ℕ
mono_packet = b'V' ∷ b'B' ∷ b'A' ∷ b'N' ∷ 3 ∷ 255 ∷ 0 ∷ 2 ∷ (stream_name ++ replicate 1449 0)

abbrev both : MapConfig
both = record { channels = replicate 256 0; nb_channels = 2 }

abbrev mono_player : Audio Recorder
mono_player = record player { stream = mono; map = both }

abbrev attacked : Receptor Recorder
attacked = record { socket = some receiving; audio = some mono_player; buffer = mono_packet }

mono_checked : packet_check (some stream_name) (some mono_packet) 796 ≡ pos 0
unfolding packet_check check_header check_protocol packet_pcm_check read_header strncmp_eq
mono_checked = refl

mono_parameters : packet_get_stream_config (some mono_packet) (some no_config) ≡ some (pos 0, mono)
unfolding packet_get_stream_config read_header
mono_parameters = refl

packet_checked : packet_check (some stream_name) (some packet) 36 ≡ pos 0
unfolding packet_check check_header check_protocol packet_pcm_check read_header strncmp_eq
packet_checked = refl

packet_parameters : packet_get_stream_config (some packet) (some no_config) ≡ some (pos 0, stereo)
unfolding packet_get_stream_config read_header
packet_parameters = refl

sets_nothing :
    audio_set_stream_config recorder (some swapped_player) (some stereo)
    ≡ (pos 0, some swapped_player)
unfolding audio_set_stream_config
sets_nothing = refl

-- witnesses

handle_packet-none_iff_example :
    (handle_packet recorder stream_name attacked 796 ≡ none) ↔ (1436 < 256 * (sample_size_of 2 * 2))
unfolding audio_set_stream_config
handle_packet-none_iff_example =
    handle_packet-none_iff recorder stream_name mono_packet (some receiving) mono_player mono_player
      mono (pos 0) 796 256 1 0 mono_checked mono_parameters refl (omega arith) (omega arith)
      (omega arith) (omega arith) (omega arith) refl refl refl refl (omega arith) refl (omega arith)

handle_packet-Handled_example :
    (go : Bool) × (r' : Receptor Recorder) × (handle_packet recorder stream_name
        (record { socket = some receiving; audio = some new_player; buffer = packet })
        36
      ≡ some (go, r'))
    × Handled recorder IsOpened recorder_opens stream_name packet
        (some receiving)
        new_player
        36
        go
        r'
handle_packet-Handled_example =
    handle_packet-Handled recorder IsOpened recorder_opens stream_name packet (some receiving)
      new_player 36 recorder-BackendLaws packet-IsBytes (omega arith) (omega arith) (inl refl) refl

handle_packet_maps_example :
    (swapped_player.stream ≡ stereo)
    × (swapped_player.map ≡ swapped_player.map)
    × (swapped_player.buffer ≡ swapped_player.buffer)
    × ((out : List ℕ) × (map_channels
            (sample_size_of 1)
            2
            8
            swap
            (drop 28 packet)
            swapped_player.buffer
          ≡ some out)
        × (handle_packet recorder stream_name
              (record { socket = some receiving; audio = some swapped_player; buffer = packet })
              36
            ≡ some (
              true,
              record {
                socket = some receiving;
                audio = some (record swapped_player {
                  buffer = out;
                  device =
                      (recorder.write_data swapped_player.device
                        (slice out 0 (2 * (sample_size_of 1 * 2)))).1;
                });
                buffer = packet;
              },
            )))
handle_packet_maps_example =
    handle_packet_maps recorder stream_name packet (some receiving) swapped_player swapped_player
      stereo (pos 0) 36 2 packet_checked packet_parameters refl (omega arith) (omega arith)
      (omega arith) (omega arith) (omega arith) sets_nothing refl refl (omega arith) (omega arith)
      (omega arith)
