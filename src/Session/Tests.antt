-- ===== src/Session/Tests.antt =====
-- A session on a concrete device and network: two blocks are sent, and played.
use vban.Prelude.{exited, still_running, ℕ, ◌≡◌, refl, arith, List, [], ◌∷◌, some, replicate, ◌++◌}
use vban.Prelude.Int.{ℤ, pos}
use vban.Prelude.CString.{strncmp_eq, strncpy}
use mathlib.Core.List.{Memᴰ}
use vban.Vban.Header.{read_header, write_header}
use vban.Packet.{
  content_fields, packet_init_header, packet_get_max_payload_size, frame_size, vban_sr_from_value,
  sr_from,
}
use vban.Packet.Prepared.{IsPrepared}
use vban.Packet.Datagrams.{Datagram, bytes_of, contents, datagrams, IsBlock, AreBlocks}
use vban.Socket.{socket_release, socket_close, Received, datagram, socket_out, socket_write}
use vban.Audio.{no_map, audio_set_stream_config, change_stream, open_stream, get_device_config}
use vban.Emitter.{EmitterConfig, prepare_emitter}
use vban.Receptor.{run_receptor}
use vban.Session.{
  Reads, all_read, reads, Sends, all_sent, sends, Receives, all_received, receives, write_all,
}
use vban.Session.Delivery.{IsEmitting, IsReceiving}
use vban.Session.Delivery.{AreDrawn}
use vban.Session.Mixed.{Arrival, of_stream, foreign, IsForeign, arrived, audio_of}
use vban.Prelude.Memory.{splice}
use vban.Prelude.Int.{einval}
use vban.Prelude.CString.{codes}
use vban.Packet.{packet_check, check_header}
use vban.Session.Stopping.{receptor_stops}
use vban.Session.Run.{IsStarting, session_lem, drawn_lem}
use vban.Samples.{
  stereo-IsCarried, stream_name, stereo, recorder, recorder-BackendLaws, Recorder, new_player,
  player, player_config, wire, Queue, peer, receiving, empty, all_bytes_sound,
}

-- The header that the emitter prepares, with the bytes of its buffer.
abbrev zeros : List ℕ
zeros = replicate 1464 0

abbrev started : List ℕ
started = b'V' ∷ b'B' ∷ b'A' ∷ b'N' ∷ 3 ∷ 0 ∷ 1 ∷ 1 ∷ (stream_name ++ replicate 1449 0)

started-IsStarting : IsStarting stream_name stereo started 1024
unfolding packet_init_header packet_get_max_payload_size frame_size vban_sr_from_value sr_from
    read_header write_header strncpy
started-IsStarting = record { written = refl; size = refl }

-- What the device of the emitter reads: 256 frames.
abbrev sevens : List ℕ
sevens = replicate 1024 7

abbrev blocks : List (List ℕ)
blocks = sevens ∷ sevens ∷ []

abbrev sent : List Datagram
sent = datagrams (read_header started) blocks

started-IsPrepared : IsPrepared stream_name stereo started
unfolding read_header strncmp_eq
started-IsPrepared = record {
  bytes = all_bytes_sound started refl;
  room = omega arith;
  announces = record {
    magic = refl;
    same_name = refl;
    rate_fits = omega arith;
    rate = refl;
    channels = refl;
    format = refl;
    has_size = omega arith;
  };
}

sevens-IsBlock : IsBlock stereo sevens
sevens-IsBlock = record {
  frames = 256;
  whole = refl;
  some_frame = omega arith;
  le = omega arith;
  fits = omega arith;
  bytes = all_bytes_sound sevens refl;
}

blocks-AreBlocks : AreBlocks stereo blocks
blocks-AreBlocks = (sevens-IsBlock, (sevens-IsBlock, tt))

abbrev config : EmitterConfig
config = record {
  socket = record { direction = socket_out; ip_address = peer; port = pos 6980 };
  audio = player_config;
  stream = stereo;
  map = no_map;
  stream_name = stream_name;
}

abbrev outbox : List (List ℕ) → Queue
outbox packets = record { inbox = []; outbox = packets }

-- What waits for the receptor.
abbrev inbox : List (List ℕ) → List Received
inbox [] = []
inbox (packet ∷ packets) = datagram peer packet ∷ inbox packets

abbrev waiting : List (List ℕ) → Queue
waiting packets = record { inbox = inbox packets; outbox = [] }

abbrev first : Datagram
first = record { header = content_fields (read_header started) 1024; block = sevens }

abbrev second : Datagram
second = record { header = content_fields first.header 1024; block = sevens }

-- A packet of another stream.
abbrev other_packet : List ℕ
other_packet = b'V' ∷ b'B' ∷ b'A' ∷ b'N' ∷ 3 ∷ 0 ∷ 1 ∷ 1 ∷ (codes "Stream2" ++ replicate 17 0)

-- Only the second datagram arrives, and twice, around a packet of another stream.
abbrev doubled : List Arrival
doubled = of_stream second ∷ foreign other_packet ∷ of_stream second ∷ []

other_refused :
    (dest : List ℕ)
    → packet_check (some stream_name) (some (splice dest 0 other_packet)) 32 ≡ einval
unfolding packet_check check_header read_header strncmp_eq splice
other_refused dest = refl

other-IsForeign : IsForeign stream_name other_packet
other-IsForeign = record {
  fits = omega arith;
  is_bytes = all_bytes_sound other_packet refl;
  refused = λ dest buffer e. absurd (ground (arith, other_refused dest, e));
}

reads_blocks : Reads recorder 1024 player.device blocks player.device
reads_blocks = reads refl (reads refl all_read)

both_sent :
    Sends wire receiving empty (contents sent) (outbox (bytes_of second ∷ bytes_of first ∷ []))
unfolding socket_write
both_sent = sends refl (sends refl all_sent)

both_received : Receives wire receiving (waiting (contents sent)) (contents sent) empty
unfolding strncmp_eq
both_received = receives refl refl (receives refl refl all_received)

second_twice : Receives wire receiving (waiting (arrived doubled)) (arrived doubled) empty
unfolding strncmp_eq
second_twice = receives refl refl (receives refl refl (receives refl refl all_received))

new_player-IsReceiving : IsReceiving recorder receiving stereo new_player player zeros
unfolding audio_set_stream_config change_stream open_stream get_device_config
new_player-IsReceiving = record {
  is_open = omega arith;
  buffer = (refl, all_bytes_sound zeros refl);
  code = pos 0;
  sets = refl;
  good = refl;
  no_map = refl;
}

-- tests

plays_twice : (write_all recorder player.device (audio_of doubled)).written ≡ blocks
unfolding write_all
plays_twice = refl

-- witnesses

abbrev played : Recorder
played = record { written = blocks; opened = stereo }

session_lem_example :
    ((ret : ℤ) × (m' : List ℕ) × (prepare_emitter recorder wire 2 config
          (some receiving)
          (some player)
          empty
        ≡ some (
            still_running (
              ret,
              record { socket = some receiving; audio = some player; buffer = m' },
              outbox (bytes_of second ∷ bytes_of first ∷ []),
            )))
      × IsEmitting stream_name stereo 1024 player m')
    × ((dest' : List ℕ) × (run_receptor recorder wire 2 1 stream_name
            (record { socket = some receiving; audio = some new_player; buffer = zeros })
            (waiting (contents sent))
          ≡ some (
              still_running (
                record {
                  socket = some receiving;
                  audio = some (record player { device = played });
                  buffer = dest';
                },
                empty,
              ))))
unfolding write_all
session_lem_example =
    session_lem recorder wire recorder-BackendLaws receiving recorder wire recorder-BackendLaws
      receiving 0 config sevens (sevens ∷ []) player started 1024 new_player player zeros
      stereo-IsCarried refl (all_bytes_sound stream_name refl) (omega arith) started-IsStarting
      blocks-AreBlocks reads_blocks both_sent new_player-IsReceiving both_received

doubled-AreDrawn : AreDrawn stream_name doubled sent
doubled-AreDrawn = (Memᴰ.tail (Memᴰ.head refl), (other-IsForeign, (Memᴰ.tail (Memᴰ.head refl), tt)))

drawn_lem_example :
    (dest' : List ℕ) × (run_receptor recorder wire 3 1 stream_name
        (record { socket = some receiving; audio = some new_player; buffer = zeros })
        (waiting (arrived doubled))
      ≡ some (
          still_running (
            record {
              socket = some receiving;
              audio = some (record player { device = played });
              buffer = dest';
            },
            empty,
          )))
unfolding write_all
drawn_lem_example =
    drawn_lem recorder wire recorder-BackendLaws receiving stream_name stereo 0 started blocks
      doubled new_player player zeros started-IsPrepared blocks-AreBlocks doubled-AreDrawn
      (λ e. absurd (cc)) new_player-IsReceiving second_twice

receptor_stops_example :
    run_receptor recorder wire 4 1 stream_name
      (record { socket = some receiving; audio = some new_player; buffer = zeros })
      (waiting (arrived doubled))
    ≡ some (exited (pos 0, some played, empty))
unfolding write_all socket_release socket_close
receptor_stops_example =
    receptor_stops recorder wire recorder-BackendLaws receiving stream_name stereo 0 started blocks
      doubled new_player player zeros 4 0 started-IsPrepared blocks-AreBlocks doubled-AreDrawn
      (λ e. absurd (cc)) new_player-IsReceiving second_twice refl
