-- ===== src/Receptor/Options.antt =====
-- `get_options` of src/receptor/main.c, and `main` with it.
pub mod Laws
mod Tests
use vban.Prelude.{
  ℕ, Bool, ◌||◌, List, Option, none, some, replicate, ◌==◌, not, if◌then◌else◌, ◌>>=◌, exited,
}
use vban.Prelude.Int.{ℤ, pos, is_zero, as_uint}
use vban.Logger.{initial_output_level, logger_set_output_level}
use vban.Options.{options_loop, copy_arg, int_arg, set_ip_address, set_port, is_missing}
use vban.Socket.{Net, SocketConfig, socket_in}
use vban.Audio.{AudioConfig, no_map}
use vban.Audio.Interface.{BackendItem, Backend, audio_in, audio_out}
use vban.Audio.Parse.{audio_parse_map_config}
use vban.Receptor.{ReceptorConfig, ReceptorRun, compute_size, receptor_main}

-- What the loop stores into: the configuration, `quality`, and the output level of the logger.
pub record ReceptorOptions : Type 0 where
  pub config : ReceptorConfig
  pub quality : ℤ
  pub level : ℕ

-- The configuration behind `memset`, and the values that the variables have before the loop.
abbrev pub no_options : ReceptorOptions
no_options = record {
  config = record {
    socket = record { direction = socket_in; ip_address = replicate 32 0; port = pos 0 };
    audio = record {
      direction = audio_in;
      backend_name = replicate 32 0;
      device_name = replicate 64 0;
      buffer_size = 0;
    };
    map = no_map;
    stream_name = replicate 16 0;
  };
  quality = pos 1;
  level = initial_output_level;
}

abbrev pub with_socket : ReceptorOptions → SocketConfig → Option (ℤ × ReceptorOptions)
with_socket o socket = some (pos 0, record o { config = record (o.config) { socket = socket } })

abbrev pub with_audio : ReceptorOptions → AudioConfig → Option (ℤ × ReceptorOptions)
with_audio o audio = some (pos 0, record o { config = record (o.config) { audio = audio } })

-- `case 'c'`
unfoldable pub set_channels : ReceptorOptions → Option (List ℕ) → Option (ℤ × ReceptorOptions)
set_channels o optarg = audio_parse_map_config (some o.config.map) optarg >>= λ (ret, stored).
    stored >>= λ map. some (ret, record o { config = record (o.config) { map = map } })

-- The `switch`.
unfoldable pub receptor_option :
    ℕ → Option (List ℕ) → ReceptorOptions → Option (ℤ × ReceptorOptions)
receptor_option c optarg o =
    if c == b'i'
    then (set_ip_address o.config.socket optarg >>= with_socket o)
    else if c == b'p'
    then (set_port o.config.socket optarg >>= with_socket o)
    else if c == b's'
    then (copy_arg o.config.stream_name 16 optarg >>= λ name.
        some (pos 0, record o { config = record (o.config) { stream_name = name } }))
    else if c == b'b'
    then (copy_arg o.config.audio.backend_name 32 optarg >>= λ name.
        with_audio o (record (o.config.audio) { backend_name = name }))
    else if c == b'q'
    then (int_arg optarg >>= λ n. some (pos 0, record o { quality = n }))
    else if c == b'c'
    then set_channels o optarg
    else if c == b'o' || c == b'd'
    then (copy_arg o.config.audio.device_name 64 optarg >>= λ name.
        with_audio o (record (o.config.audio) { device_name = name }))
    else if c == b'l'
    then (int_arg optarg >>= λ n. some (pos 0, record o { level = logger_set_output_level n }))
    else some (pos 1, o)

-- The values that are set behind the loop.
abbrev pub for_output : ReceptorOptions → ReceptorConfig
for_output o = record (o.config) {
  audio = record (o.config.audio) {
    direction = audio_out;
    buffer_size = compute_size (as_uint o.quality);
  };
  socket = record (o.config.socket) { direction = socket_in };
}

-- `get_options` behind its loop.
unfoldable pub check_options : ℤ → ReceptorOptions → ℤ × ReceptorConfig
check_options ret o =
    let config = for_output o in
    if not (is_zero ret)
    then (ret, o.config)
    else if is_missing config.socket config.stream_name
    then (pos 1, config)
    else (pos 0, config)

-- `get_options`, on a configuration that is all zero.
unfoldable pub get_options : List (ℕ × Option (List ℕ)) → Option (ℤ × ReceptorConfig)
get_options items =
    options_loop receptor_option items no_options >>= λ (ret, o). some (check_options ret o)

-- `main`
module _ {Device World : Type 0} (b : Backend Device) (net : Net World) where
  -- `main`; the arguments behind the options are those of `receptor_main`.
  unfoldable pub receptor_program :
      List (ℕ × Option (List ℕ))
      → Bool
      → Bool
      → BackendItem Device
      → List (BackendItem Device)
      → ℕ
      → ℕ
      → World
      → Option (ReceptorRun b net)
  receptor_program items m m' first backends rounds fuel w = get_options items >>= λ (ret, config).
      if not (is_zero ret)
      then some (exited (ret, none, w))
      else receptor_main b net m m' config first backends rounds fuel w
