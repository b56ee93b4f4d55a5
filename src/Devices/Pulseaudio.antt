-- ===== src/Devices/Pulseaudio.antt =====
-- src/common/backend/pulseaudio_backend.c: audio to and from a PulseAudio server. Its functions are
-- called by the audio object only, which passes a device and a block that are not null.
pub mod Laws
mod Tests
use vban.Prelude.{
  ℕ, ◌/◌, ◌%◌, ◌^◌, ◌-◌, ◌≤◌, ◌≡◌, Bool, true, false, List, [], Option, none, some, length, ◌==◌,
  if◌then◌else◌,
}
use vban.Prelude.Int.{ℤ, pos, is_negative, as_int, enodev, enomem}
use vban.Prelude.CString.{char_of}
use vban.Stream.{StreamConfig}
use vban.Audio.Interface.{Direction, audio_in, audio_out, Backend, InitResult, initialised, refused}

-- `pa_sample_format_t`, as far as it is used
pub data PaFormat : Type 0 where
  u8 s16le s24le s32le float32le invalid : PaFormat

unfoldable pub vban_to_pulseaudio_format : ℕ → PaFormat
vban_to_pulseaudio_format bit_resolution =
    if bit_resolution == 0
    then u8
    else if bit_resolution == 1
    then s16le
    else if bit_resolution == 2
    then s24le
    else if bit_resolution == 3
    then s32le
    else if bit_resolution == 4
    then float32le
    else invalid

-- `pa_sample_spec`; its `channels` is a `uint8_t`.
pub record SampleSpec : Type 0 where
  pub format : PaFormat
  pub rate : ℕ
  pub channels : ℕ

-- `pa_buffer_attr`
pub record BufferAttr : Type 0 where
  pub maxlength : ℕ
  pub tlength : ℕ
  pub prebuf : ℕ
  pub minreq : ℕ
  pub fragsize : ℕ

-- The functions of the simple API, over the state of the server. `simple_new` returns a handle, or the
-- error code that it stores; the attributes are those of a playback stream.
pub record Pulse (World Pa : Type 0) : Type 0 where
  pub simple_new :
      World → Direction → Option (List ℕ) → SampleSpec → Option BufferAttr → Option Pa × ℤ × World
  pub simple_free : World → Pa → World
  pub simple_write : World → Pa → List ℕ → ℤ × World
  pub simple_read : World → Pa → ℕ → ℤ × List ℕ × World

-- `struct pulseaudio_backend_t`, with the state of the server. A null handle is `none`.
pub record PulseDevice (World Pa : Type 0) : Type 0 where
  pub handle : Option Pa
  pub world : World

abbrev pub sample_spec : StreamConfig → SampleSpec
sample_spec config = record {
  format = vban_to_pulseaudio_format config.bit_fmt;
  rate = config.sample_rate;
  channels = config.nb_channels % 256;
}

abbrev buffer_attr : ℕ → BufferAttr
buffer_attr buffer_size = record {
  maxlength = 2 ^ 32 - 1;
  tlength = buffer_size % 2 ^ 32;
  prebuf = buffer_size / 2 % 2 ^ 32;
  minreq = 2 ^ 32 - 1;
  fragsize = 2 ^ 32 - 1;
}

abbrev pub attr_of : Direction → ℕ → Option BufferAttr
attr_of audio_out buffer_size = some (buffer_attr buffer_size)
attr_of audio_in buffer_size = none

module _ {World Pa : Type 0} (pulse : Pulse World Pa) where
  -- `pulseaudio_backend_init`; the first argument says whether `calloc` gives memory.
  unfoldable pub pulseaudio_backend_init : Bool → World → InitResult (PulseDevice World Pa)
  pulseaudio_backend_init false w = refused enomem
  pulseaudio_backend_init true w = initialised (record { handle = none; world = w })

  -- `pulseaudio_open` behind `pa_simple_new`, which stored `error`.
  unfoldable pub opened : Option Pa → ℤ → World → ℤ × PulseDevice World Pa
  opened none error w = (error, record { handle = none; world = w })
  opened (some pa) error w = (pos 0, record { handle = some pa; world = w })

  unfoldable pub pulseaudio_open :
      PulseDevice World Pa → List ℕ → Direction → ℕ → StreamConfig → ℤ × PulseDevice World Pa
  pulseaudio_open d device_name direction buffer_size config =
      let name = if char_of device_name == 0 then none else some device_name in
      let (pa, error, w) =
        pulse.simple_new d.world direction name (sample_spec config)
          (attr_of direction buffer_size) in
      opened pa error w

  -- `pulseaudio_close` for the handle that the device holds.
  unfoldable pub close_handle : Option Pa → PulseDevice World Pa → ℤ × PulseDevice World Pa
  close_handle none d = (pos 0, d)
  close_handle (some pa) d = (pos 0, record { handle = none; world = pulse.simple_free d.world pa })

  unfoldable pub pulseaudio_close : PulseDevice World Pa → ℤ × PulseDevice World Pa
  pulseaudio_close d = close_handle d.handle d

  unfoldable pub write_handle : Option Pa → PulseDevice World Pa → List ℕ → ℤ × PulseDevice World Pa
  write_handle none d data_in = (enodev, d)
  write_handle (some pa) d data_in =
      let (ret, w) = pulse.simple_write d.world pa data_in in
      (if is_negative ret then ret else as_int (length data_in), record d { world = w })

  unfoldable pub pulseaudio_write : PulseDevice World Pa → List ℕ → ℤ × PulseDevice World Pa
  pulseaudio_write d data_in = write_handle d.handle d data_in

  unfoldable pub read_handle :
      Option Pa → PulseDevice World Pa → ℕ → ℤ × List ℕ × PulseDevice World Pa
  read_handle none d size = (enodev, [], d)
  read_handle (some pa) d size =
      let (ret, bytes, w) = pulse.simple_read d.world pa size in
      (if is_negative ret then ret else as_int size, bytes, record d { world = w })

  unfoldable pub pulseaudio_read : PulseDevice World Pa → ℕ → ℤ × List ℕ × PulseDevice World Pa
  pulseaudio_read d size = read_handle d.handle d size

  -- The functions that `pulseaudio_backend_init` stores.
  abbrev pub pulseaudio_backend : Backend (PulseDevice World Pa)
  pulseaudio_backend = record {
    open_device = pulseaudio_open;
    close_device = pulseaudio_close;
    write_data = pulseaudio_write;
    read_data = pulseaudio_read;
  }
