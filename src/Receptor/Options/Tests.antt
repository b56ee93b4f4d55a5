-- ===== src/Receptor/Options/Tests.antt =====
-- The receptor's options, and its loop on a network that does not end.
use vban.Prelude.{
  exited, ℕ, ◌+◌, ◌≡◌, refl, ap, arith, true, List, [], ◌∷◌, Option, none, some, inl, replicate,
  take, length, length-take, length-replicate,
}
use vban.Prelude.Int.{pos}
use vban.Prelude.Memory.{splice, write_block, take-IsBytes}
use vban.Prelude.CString.{codes, strncpy, strncmp_eq}
use vban.Prelude.Scan.{atoi, skip_spaces, digits_value, scan_unsigned, split_tokens, tokens}
use vban.Options.{options_loop, set_ip_address, set_port}
use vban.Options.Laws.{ItemsAreBytes}
use vban.Audio.Interface.{audio_out, initialised}
use vban.Audio.Parse.{parse_channels, audio_parse_map_config}
use vban.Socket.{Net, Received, datagram, socket_in}
use vban.Receptor.{ReceptorConfig, compute_size, ReceptorRun, run_receptor}
use vban.Receptor.Options.{
  receptor_option, set_channels, check_options, get_options, receptor_program,
}
use vban.Receptor.Options.Laws.{IsReceptorReady, get_options-IsReceptorReady}
use vban.Audio.{Audio}
use vban.Receptor.OneChannel
use vban.Receptor.OneChannel.{run_receptor_one_channel}
use vban.Receptor.Loop.{ReceivesBytes, Settles, matches, IsHealthy, run_receptor_lem}
use vban.Samples.{
  all_bytes_sound, packet, packet-IsBytes, stream_name, recorder, Recorder, recorder-BackendLaws,
  IsOpened, recorder_opens, new_player, idle, peer, receiving, wire, empty,
}

abbrev items : List (ℕ × Option (List ℕ))
items =
    (b'i', some peer)
    ∷ (b'p', some (codes "6980"))
    ∷ (b's', some stream_name)
    ∷ (b'q', some (codes "4"))
    ∷ (b'c', some (codes "2,1"))
    ∷ []

abbrev chosen : ReceptorConfig
chosen = record {
  socket = record {
    direction = socket_in;
    ip_address = splice (replicate 32 0) 0 (strncpy 31 peer);
    port = pos 6980;
  };
  audio = record {
    direction = audio_out;
    backend_name = replicate 32 0;
    device_name = replicate 64 0;
    buffer_size = 24576;
  };
  map = record { channels = 1 ∷ 0 ∷ replicate 254 0; nb_channels = 2 };
  stream_name = splice (replicate 16 0) 0 (strncpy 15 stream_name);
}

options_read : get_options items ≡ some (pos 0, chosen)
unfolding get_options options_loop receptor_option set_ip_address set_port set_channels
    check_options strncpy splice write_block atoi skip_spaces digits_value scan_unsigned
    split_tokens tokens parse_channels audio_parse_map_config compute_size
options_read = refl

-- The address and the name are missing: the program ends with 1, and nothing is opened.
options_refused :
    receptor_program recorder wire
      ((b'p', some (codes "1")) ∷ [])
      true
      true
      (record { name = []; init_function = initialised idle })
      []
      5
      3
      empty
    ≡ some (exited (pos 1, none, empty))
unfolding receptor_program get_options options_loop receptor_option set_port check_options atoi
    skip_spaces digits_value
options_refused = refl

-- witnesses

items-AreBytes : ItemsAreBytes items
items-AreBytes = (
  all_bytes_sound peer refl,
  (
    all_bytes_sound (codes "6980") refl,
    (
      all_bytes_sound stream_name refl,
      (all_bytes_sound (codes "4") refl, (all_bytes_sound (codes "2,1") refl, tt)),
    ),
  ),
)

get_options-IsReceptorReady_example : IsReceptorReady chosen
get_options-IsReceptorReady_example =
    get_options-IsReceptorReady items {config = chosen} items-AreBytes options_read

-- The peer sends the same packet again and again.
abbrev steady : Net ℕ
steady = record {
  create = λ w. (pos 3, w);
  bind_port = λ w fd port. (pos 0, w);
  set_broadcast = λ w fd. (pos 0, w);
  close_fd = λ w fd. (pos 0, w);
  errno = λ w. pos 98;
  receive = λ w fd n. (datagram peer (take n packet), w + 1);
  send = λ w fd ip port bytes. (pos (length bytes), w);
}

abbrev bytes_of : Received → List ℕ
bytes_of (datagram sender bytes) = bytes
bytes_of other = []

steady-ReceivesBytes : ReceivesBytes steady
steady-ReceivesBytes w w' fd n sender bytes e =
    let same : take n packet ≡ bytes = ap (λ r. bytes_of (r.0)) e in
    rw (← same) (omega (arith, length-take n packet), take-IsBytes n packet packet-IsBytes)

peer_matches : strncmp_eq 32 receiving.config.ip_address peer ≡ true
unfolding strncmp_eq
peer_matches = refl

steady_Settles : (w : ℕ) → Settles steady receiving 1 w
steady_Settles w = matches refl peer_matches

run_receptor_lem_example :
    (p : ReceptorRun recorder steady) × (run_receptor recorder steady 100 1 stream_name
        (record { socket = some receiving; audio = some new_player; buffer = replicate 1464 0 })
        0
      ≡ some p)
    × IsHealthy recorder steady receiving 1 stream_name IsOpened recorder_opens
        (λ d bytes c opened. opened)
        recorder-BackendLaws
        steady-ReceivesBytes
        (omega arith)
        steady_Settles
        p
run_receptor_lem_example =
    run_receptor_lem recorder steady receiving 1 stream_name IsOpened recorder_opens
      (λ d bytes c opened. opened) recorder-BackendLaws steady-ReceivesBytes (omega arith)
      steady_Settles 100 new_player (replicate 1464 0) 0
      (length-replicate {A = ℕ} 1464 0, all_bytes_sound (replicate 1464 0) refl) (inl refl) refl

abbrev left_player : Audio Recorder
left_player = record new_player { map = record { channels = replicate 256 0; nb_channels = 1 } }

run_receptor_one_channel_example :
    (p : ReceptorRun recorder steady) × (run_receptor recorder steady 100 1 stream_name
        (record { socket = some receiving; audio = some left_player; buffer = replicate 1464 0 })
        0
      ≡ some p)
    × OneChannel.IsHealthy recorder steady receiving 1 stream_name IsOpened recorder_opens
        (λ d bytes c opened. opened)
        steady-ReceivesBytes
        (omega arith)
        steady_Settles
        p
run_receptor_one_channel_example =
    run_receptor_one_channel recorder steady receiving 1 stream_name IsOpened recorder_opens
      (λ d bytes c opened. opened) steady-ReceivesBytes (omega arith) steady_Settles 100 left_player
      (replicate 1464 0) 0
      (length-replicate {A = ℕ} 1464 0, all_bytes_sound (replicate 1464 0) refl) (inl refl) refl
      (omega arith) refl
