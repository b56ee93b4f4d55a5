-- ===== src/Emitter/Options.antt =====
-- `get_options` of src/emitter/main.c, and `main` with it.
pub mod Laws
mod Tests
use vban.Prelude.{
  ℕ, Bool, List, Option, none, some, replicate, ◌==◌, not, if◌then◌else◌, ◌>>=◌, exited,
}
use vban.Prelude.Int.{ℤ, pos, is_zero, as_uint, as_size}
use vban.Prelude.CString.{codes, strncmp_eq}
use vban.Logger.{initial_output_level, logger_set_output_level}
use vban.Options.{options_loop, copy_arg, int_arg, set_ip_address, set_port, is_missing}
use vban.Socket.{Net, SocketConfig, socket_out}
use vban.Stream.{StreamConfig, parse_bit_fmt}
use vban.Audio.{AudioConfig, no_map}
use vban.Audio.Interface.{BackendItem, Backend, audio_in}
use vban.Audio.Parse.{audio_parse_map_config}
use vban.Emitter.{EmitterConfig, EmitterRun, emitter_main}

-- What the loop stores into: the configuration, and the output level of the logger.
pub record EmitterOptions : Type 0 where
  pub config : EmitterConfig
  pub level : ℕ

-- The configuration behind `memset`, with the default values.
abbrev pub default_options : EmitterOptions
default_options = record {
  config = record {
    socket = record { direction = socket_out; ip_address = replicate 32 0; port = pos 0 };
    audio = record {
      direction = audio_in;
      backend_name = replicate 32 0;
      device_name = replicate 64 0;
      buffer_size = 1024;
    };
    stream = record { nb_channels = 2; sample_rate = 44100; bit_fmt = 1 };
    map = no_map;
    stream_name = replicate 16 0;
  };
  level = initial_output_level;
}

abbrev pub with_socket : EmitterOptions → SocketConfig → Option (ℤ × EmitterOptions)
with_socket o socket = some (pos 0, record o { config = record (o.config) { socket = socket } })

abbrev pub with_audio : EmitterOptions → AudioConfig → Option (ℤ × EmitterOptions)
with_audio o audio = some (pos 0, record o { config = record (o.config) { audio = audio } })

abbrev pub with_stream : EmitterOptions → StreamConfig → Option (ℤ × EmitterOptions)
with_stream o stream = some (pos 0, record o { config = record (o.config) { stream = stream } })

-- `case 'c'`
unfoldable pub set_channels : EmitterOptions → Option (List ℕ) → Option (ℤ × EmitterOptions)
set_channels o optarg = audio_parse_map_config (some o.config.map) optarg >>= λ (ret, stored).
    stored >>= λ map. some (ret, record o { config = record (o.config) { map = map } })

-- The cases that describe the audio; `other` stands for those behind them.
unfoldable pub stream_option :
    ℕ → Option (List ℕ) → EmitterOptions → Option (ℤ × EmitterOptions) → Option (ℤ × EmitterOptions)
stream_option c optarg o other =
    if c == b'r'
    then (int_arg optarg >>= λ n.
        with_stream o (record (o.config.stream) { sample_rate = as_uint n }))
    else if c == b'n'
    then (int_arg optarg >>= λ n.
        with_stream o (record (o.config.stream) { nb_channels = as_uint n }))
    else if c == b'f'
    then (optarg >>= λ s. with_stream o (record (o.config.stream) { bit_fmt = parse_bit_fmt s }))
    else if c == b'c'
    then set_channels o optarg
    else if c == b'x'
    then (int_arg optarg >>= λ n.
        with_audio o (record (o.config.audio) { buffer_size = as_size n }))
    else other

-- The `switch`.
unfoldable pub emitter_option : ℕ → Option (List ℕ) → EmitterOptions → Option (ℤ × EmitterOptions)
emitter_option c optarg o =
    if c == b'i'
    then (set_ip_address o.config.socket optarg >>= with_socket o)
    else if c == b'p'
    then (set_port o.config.socket optarg >>= with_socket o)
    else if c == b's'
    then (copy_arg o.config.stream_name 16 optarg >>= λ name.
        some (pos 0, record o { config = record (o.config) { stream_name = name } }))
    else if c == b'b'
    then (copy_arg o.config.audio.backend_name 32 optarg >>= λ name.
        with_audio o (record (o.config.audio) { backend_name = name }))
    else if c == b'd'
    then (copy_arg o.config.audio.device_name 64 optarg >>= λ name.
        with_audio o (record (o.config.audio) { device_name = name }))
    else stream_option c optarg o (
        if c == b'l'
        then (int_arg optarg >>= λ n. some (pos 0, record o { level = logger_set_output_level n }))
        else some (pos 1, o))

-- `get_options` behind its loop.
unfoldable pub check_options : ℤ → EmitterConfig → ℤ × EmitterConfig
check_options ret config =
    if not (is_zero ret)
    then (ret, config)
    else if is_missing config.socket config.stream_name
    then (pos 1, config)
    else if strncmp_eq 32 config.audio.backend_name (codes "jack")
    then (pos 1, config)
    else (pos 0, config)

-- `get_options`, on a configuration that is all zero.
unfoldable pub get_options : List (ℕ × Option (List ℕ)) → Option (ℤ × EmitterConfig)
get_options items = options_loop emitter_option items default_options >>= λ (ret, o).
    some (check_options ret o.config)

module _ {Device World : Type 0} (b : Backend Device) (net : Net World) where
  -- `main`; the arguments behind the options are those of `emitter_main`.
  unfoldable pub emitter_program :
      List (ℕ × Option (List ℕ))
      → Bool
      → Bool
      → BackendItem Device
      → List (BackendItem Device)
      → ℕ
      → World
      → Option (EmitterRun b net)
  emitter_program items m m' first backends rounds w = get_options items >>= λ (ret, config).
      if not (is_zero ret)
      then some (exited (ret, none, w))
      else emitter_main b net m m' config first backends rounds w
