-- ===== src/Audio.antt =====
-- src/common/audio.c and audio.h: the audio object between the network and a backend.
pub mod Interface
pub mod Channels
pub mod Parse
pub mod Streams
pub mod Sizes
pub mod Writing
pub mod Overrun
pub mod Capture
pub mod Reading
mod Tests
use vban.Prelude.{
  Bool, ℕ, ◌+◌, ◌-◌, ◌*◌, ◌/◌, ◌%◌, ◌^◌, List, Option, none, some, true, false, ◌&&◌, get_elem?,
  replicate, length, ◌==◌, if◌then◌else◌, ◌>>=◌, not,
}
use vban.Prelude.Int.{
  ℤ, pos, negsuc, is_negative, is_zero, as_int, as_size, as_uint, einval, enodev, enomem,
}
use vban.Prelude.Memory.{read_block, write_block}
use vban.Vban.{data_max_size, bit_resolution_size}
use vban.Stream.{StreamConfig}
use vban.Packet.{no_config}
use Interface.{
  Direction, audio_in, audio_out, Backend, InitResult, initialised, refused, BackendItem,
  audio_backend_get_by_name,
}
use Channels.{MapConfig, map_channels}

-- `struct audio_config_t`
pub record AudioConfig : Type 0 where
  pub direction : Direction
  pub backend_name : List ℕ
  pub device_name : List ℕ
  pub buffer_size : ℕ

-- `struct audio_t`, with the state of its backend in place of the pointer to it.
pub record Audio (Device : Type 0) : Type 0 where
  pub config : AudioConfig
  pub stream : StreamConfig
  pub map : MapConfig
  pub device : Device
  pub buffer : List ℕ

abbrev pub no_map : MapConfig
no_map = record { channels = replicate 256 0; nb_channels = 0 }

abbrev is_out : Direction → Bool
is_out audio_in = false
is_out audio_out = true

-- `AUDIO_MAP_OUTPUT_SIZE`, of a `size_t`: a stream with no channel faults.
unfoldable pub map_output_size : StreamConfig → MapConfig → ℕ → Option ℕ
map_output_size stream map size =
    if map.nb_channels == 0
    then some size
    else if stream.nb_channels == 0
    then none
    else some (size * map.nb_channels % 2 ^ 64 / stream.nb_channels)

-- `AUDIO_MAP_REVERSE_INPUT_SIZE`, of a `size_t`.
unfoldable pub map_reverse_input_size : StreamConfig → MapConfig → ℕ → ℕ
map_reverse_input_size stream map size =
    if map.nb_channels == 0 then size else size * stream.nb_channels % 2 ^ 64 / map.nb_channels

-- `AUDIO_MAP_REVERSE_INPUT_SIZE`, of the `int` that the backend returned, stored into an `int`: the
-- product is computed in `unsigned int`.
unfoldable pub map_reverse_result : StreamConfig → MapConfig → ℤ → ℤ
map_reverse_result stream map ret =
    if map.nb_channels == 0
    then as_int (as_size ret)
    else as_int (as_uint ret * stream.nb_channels % 2 ^ 32 / map.nb_channels)

abbrev pub same_stream : StreamConfig → StreamConfig → Bool
same_stream s t =
    s.nb_channels == t.nb_channels && (s.sample_rate == t.sample_rate && s.bit_fmt == t.bit_fmt)

module _ {Device : Type 0} where
  -- The allocated object, all zero but for its configuration, with the backend that was found.
  abbrev pub fresh_audio : AudioConfig → Device → Audio Device
  fresh_audio config device = record {
    config = config;
    stream = no_config;
    map = no_map;
    device = device;
    buffer = replicate data_max_size 0;
  }

  -- `audio_init` once the backend was looked for.
  unfoldable pub init_with : AudioConfig → InitResult Device → ℤ × Option (Audio Device)
  init_with config (initialised device) = (pos 0, some (fresh_audio config device))
  init_with config (refused code) = (enodev, none)

  -- `audio_init`; the first argument says whether `calloc` gives memory.
  unfoldable pub audio_init :
      Bool
      → Option AudioConfig
      → BackendItem Device
      → List (BackendItem Device)
      → ℤ × Option (Audio Device)
  audio_init memory none first items = (einval, none)
  audio_init false (some config) first items = (enomem, none)
  audio_init true (some config) first items =
      init_with config (audio_backend_get_by_name config.backend_name first items)

  -- `get_device_config`
  unfoldable pub get_device_config : Audio Device → StreamConfig
  get_device_config a =
      if is_out a.config.direction && not (a.map.nb_channels == 0)
      then record (a.stream) { nb_channels = a.map.nb_channels }
      else a.stream

  -- `audio_get_stream_config`: the code, and what is stored through `config`.
  unfoldable pub audio_get_stream_config : Option (Audio Device) → ℤ × Option StreamConfig
  audio_get_stream_config none = (einval, none)
  audio_get_stream_config (some a) = (
    pos 0,
    some (
        if not (is_out a.config.direction) && not (a.map.nb_channels == 0)
        then record (a.stream) { nb_channels = a.map.nb_channels }
        else a.stream),
  )

  unfoldable pub audio_set_map_config :
      Option (Audio Device) → Option MapConfig → ℤ × Option (Audio Device)
  audio_set_map_config none config = (einval, none)
  audio_set_map_config (some a) none = (einval, some a)
  audio_set_map_config (some a) (some config) = (pos 0, some (record a { map = config }))

  -- `audio_map_channels` with `reverse == 0`: from the caller's block into the object's buffer.
  unfoldable pub map_out : Audio Device → List ℕ → ℕ → Option (Audio Device)
  map_out a data_in size = get_elem? bit_resolution_size a.stream.bit_fmt >>= λ sample_size.
      if a.map.nb_channels == 0
      then some a
      else (map_channels sample_size a.stream.nb_channels size a.map data_in a.buffer >>= λ out.
          some (record a { buffer = out }))

  -- `audio_map_channels` with `reverse == 1`: from the object's buffer into the caller's block.
  unfoldable pub map_in : Audio Device → List ℕ → ℕ → Option (List ℕ)
  map_in a data_out size = get_elem? bit_resolution_size a.stream.bit_fmt >>= λ sample_size.
      if a.map.nb_channels == 0
      then some data_out
      else map_channels sample_size a.stream.nb_channels size a.map a.buffer data_out

  -- The bytes that the backend's read stores: into the object's buffer if a map is set, otherwise
  -- into the caller's block.
  unfoldable pub store_read : Audio Device → List ℕ → List ℕ → Option (Audio Device × List ℕ)
  store_read a data_out bytes =
      if a.map.nb_channels == 0
      then (write_block data_out 0 bytes >>= λ out. some (a, out))
      else (write_block a.buffer 0 bytes >>= λ out. some (record a { buffer = out }, data_out))

  -- `audio_read` behind the backend's read, which returned `ret`.
  unfoldable pub read_in : ℤ → Audio Device → List ℕ → Option (ℤ × Option (Audio Device) × List ℕ)
  read_in (negsuc k) a data_out = some (negsuc k, some a, data_out)
  read_in (pos size) a data_out = do
    out ← map_in a data_out size
    out_size ← map_output_size a.stream a.map size
    some (as_int out_size, some a, out)

module _ {Device : Type 0} (b : Backend Device) where
  -- `audio_release`: the handle is null afterwards.
  unfoldable pub audio_release : Option (Audio Device) → ℤ × Option Device
  audio_release none = (pos 0, none)
  audio_release (some a) = let (ret, device) = b.close_device a.device in (ret, some device)

  -- The device is opened for the stream that was just set; a failure forgets the stream.
  unfoldable pub open_stream : Audio Device → ℤ × Option (Audio Device)
  open_stream a =
      let (ret, device) =
        b.open_device a.device a.config.device_name a.config.direction a.config.buffer_size
          (get_device_config a) in
      if is_negative ret
      then (ret, some (record a { device = device; stream = no_config }))
      else (ret, some (record a { device = device }))

  -- The device is closed, and opened again for the new stream.
  unfoldable pub change_stream : Audio Device → StreamConfig → ℤ × Option (Audio Device)
  change_stream a config =
      let (ret, device) = b.close_device a.device in
      if is_negative ret
      then (ret, some (record a { device = device }))
      else open_stream (record a { device = device; stream = config })

  unfoldable pub audio_set_stream_config :
      Option (Audio Device) → Option StreamConfig → ℤ × Option (Audio Device)
  audio_set_stream_config none config = (einval, none)
  audio_set_stream_config (some a) none = (einval, some a)
  audio_set_stream_config (some a) (some config) =
      if same_stream a.stream config then (pos 0, some a) else change_stream a config

  -- The backend's part of `audio_write`.
  unfoldable pub write_out : Audio Device → List ℕ → ℕ → Option (ℤ × Option (Audio Device))
  write_out a data_in size = do
    out_size ← map_output_size a.stream a.map size
    bytes ← read_block (if a.map.nb_channels == 0 then data_in else a.buffer) 0 out_size
    some (
        let (ret, device) = b.write_data a.device bytes in
        (map_reverse_result a.stream a.map ret, some (record a { device = device })))

  unfoldable pub audio_write :
      Option (Audio Device) → Option (List ℕ) → ℕ → Option (ℤ × Option (Audio Device))
  audio_write none data_in size = some (einval, none)
  audio_write (some a) none size = some (einval, some a)
  audio_write (some a) (some data_in) size = do
    mapped ← map_out a data_in size
    write_out mapped data_in size

  unfoldable pub audio_read :
      Option (Audio Device)
      → Option (List ℕ)
      → ℕ
      → Option (ℤ × Option (Audio Device) × Option (List ℕ))
  audio_read none data_out size = some (einval, none, data_out)
  audio_read (some a) none size = some (einval, some a, none)
  audio_read (some a) (some data_out) size =
      let (ret, bytes, device) =
        b.read_data a.device (map_reverse_input_size a.stream a.map size) in
      store_read (record a { device = device }) data_out bytes >>= λ (stored, out).
      read_in ret stored out >>= λ (code, handle, out'). some (code, handle, some out')
