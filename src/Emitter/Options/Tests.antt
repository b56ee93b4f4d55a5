-- ===== src/Emitter/Options/Tests.antt =====
-- The emitter's options, and a run from the header on.
use vban.Prelude.{
  exited, arith, zero, suc, ◌<◌, get_or, ℕ, ◌≡◌, refl, true, List, [], ◌∷◌, Option, none, some,
  replicate,
}
use vban.Prelude.Int.{pos}
use vban.Prelude.Memory.{IsBytes, splice, write_block}
use vban.Prelude.CString.{codes, strncpy, strncmp_eq}
use vban.Prelude.Scan.{atoi, skip_spaces, digits_value, scan_unsigned, split_tokens, tokens}
use vban.Stream.{parse_bit_fmt}
use vban.Options.{options_loop, set_ip_address, set_port}
use vban.Options.Laws.{ItemsAreBytes}
use vban.Audio.Interface.{audio_in, initialised}
use vban.Audio.Parse.{parse_channels, audio_parse_map_config}
use vban.Socket.{socket_out}
use vban.Packet.Config.{IsCarried}
use vban.Emitter.{EmitterConfig, EmitterRun, prepare_emitter}
use vban.Emitter.Loop.{prepare_emitter_lem}
use vban.Emitter.Options.{
  stream_option, emitter_option, set_channels, check_options, get_options, emitter_program,
}
use vban.Emitter.Options.Laws.{IsEmitterReady, get_options-IsEmitterReady}
use vban.Samples.{
  all_bytes_sound, stream_name, peer, recorder, recorder-BackendLaws, Recorder, player, stereo,
  idle, wire, empty,
}

abbrev items : List (ℕ × Option (List ℕ))
items =
    (b'i', some peer)
    ∷ (b'p', some (codes "6980"))
    ∷ (b's', some stream_name)
    ∷ (b'r', some (codes "48000"))
    ∷ (b'f', some (codes "32F"))
    ∷ (b'c', some (codes "2"))
    ∷ []

abbrev chosen : EmitterConfig
chosen = record {
  socket = record {
    direction = socket_out;
    ip_address = splice (replicate 32 0) 0 (strncpy 31 peer);
    port = pos 6980;
  };
  audio = record {
    direction = audio_in;
    backend_name = replicate 32 0;
    device_name = replicate 64 0;
    buffer_size = 1024;
  };
  stream = record { nb_channels = 2; sample_rate = 48000; bit_fmt = 4 };
  map = record { channels = 1 ∷ replicate 255 0; nb_channels = 1 };
  stream_name = splice (replicate 16 0) 0 (strncpy 15 stream_name);
}

options_read : get_options items ≡ some (pos 0, chosen)
unfolding get_options options_loop emitter_option stream_option set_ip_address set_port set_channels
    check_options strncpy strncmp_eq splice write_block atoi skip_spaces digits_value scan_unsigned
    split_tokens tokens parse_channels audio_parse_map_config parse_bit_fmt
options_read = refl

-- `--bufsize` without a value hands a null pointer to `atoi`.
size_missing : get_options ((b'x', none) ∷ []) ≡ none
unfolding get_options options_loop emitter_option stream_option
size_missing = refl

help_shown :
    emitter_program recorder wire
      ((b'h', none) ∷ [])
      true
      true
      (record { name = []; init_function = initialised idle })
      []
      5
      empty
    ≡ some (exited (pos 1, none, empty))
unfolding emitter_program get_options options_loop emitter_option stream_option check_options
help_shown = refl

-- witnesses

items-AreBytes : ItemsAreBytes items
items-AreBytes = (
  all_bytes_sound peer refl,
  (
    all_bytes_sound (codes "6980") refl,
    (
      all_bytes_sound stream_name refl,
      (
        all_bytes_sound (codes "48000") refl,
        (all_bytes_sound (codes "32F") refl, (all_bytes_sound (codes "2") refl, tt)),
      ),
    ),
  ),
)

get_options-IsEmitterReady_example : IsEmitterReady chosen
get_options-IsEmitterReady_example =
    get_options-IsEmitterReady items {config = chosen} items-AreBytes options_read

stereo-IsCarried : IsCarried stereo
stereo-IsCarried = record {
  some_channel = omega arith;
  channels = omega arith;
  rate_index = 3;
  rate = refl;
  format = omega arith;
}

recorder_reads : (d : Recorder) (n : ℕ) → IsBytes (recorder.read_data d n).1
recorder_reads d n i = ground (arith, sevens n i)
  where
    sevens : (n i : ℕ) → get_or (replicate n 7) i 0 < 256
    sevens zero i = omega arith
    sevens (suc n) zero = omega arith
    sevens (suc n) (suc i) = sevens n i

prepare_emitter_lem_example :
    (p : EmitterRun recorder wire) × (prepare_emitter recorder wire 9 chosen none
        (some player)
        empty
      ≡ some p)
unfolding splice strncpy
prepare_emitter_lem_example =
    prepare_emitter_lem recorder wire recorder-BackendLaws recorder_reads 9 chosen none player empty
      stereo-IsCarried refl (all_bytes_sound chosen.stream_name refl) (omega arith)
