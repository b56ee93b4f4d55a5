-- ===== src/Devices/Pulseaudio/Tests.antt =====
-- The PulseAudio backend on a concrete server.
use vban.Prelude.{ℕ, ◌+◌, ◌≡◌, refl, true, [], ◌∷◌, some, none, length, map, replicate}
use vban.Prelude.Int.{pos}
use vban.Packet.{no_config}
use vban.Audio.{Audio, no_map}
use vban.Audio.Interface.{audio_out, initialised}
use vban.Devices.Pulseaudio.{
  Pulse, PulseDevice, u8, s16le, float32le, invalid, vban_to_pulseaudio_format,
  pulseaudio_backend_init, pulseaudio_open, opened, pulseaudio_close, close_handle,
  pulseaudio_write, write_handle, pulseaudio_read, read_handle,
}
use vban.Samples.{stereo, frames, player_config}

-- A server that counts the bytes it was given, and one that refuses every stream (`PA_ERR_INVALID`).
abbrev server : Pulse ℕ ℕ
server = record {
  simple_new = λ w direction name spec attr. (some 5, pos 0, w);
  simple_free = λ w pa. w + 100;
  simple_write = λ w pa bytes. (pos 0, w + length bytes);
  simple_read = λ w pa n. (pos 0, replicate 8 6, w);
}

abbrev refusing : Pulse ℕ ℕ
refusing = record server { simple_new = λ w direction name spec attr. (none, pos 3, w) }

abbrev closed : PulseDevice ℕ ℕ
closed = record { handle = none; world = 0 }

abbrev playing : PulseDevice ℕ ℕ
playing = record { handle = some 5; world = 0 }

formats_found :
    map vban_to_pulseaudio_format (0 ∷ 1 ∷ 4 ∷ 5 ∷ []) ≡ u8 ∷ s16le ∷ float32le ∷ invalid ∷ []
unfolding vban_to_pulseaudio_format
formats_found = refl

init_closed : pulseaudio_backend_init server true 0 ≡ initialised closed
unfolding pulseaudio_backend_init
init_closed = refl

opens_and_closes :
    (pulseaudio_open server closed [] audio_out 1024 stereo ≡ (pos 0, playing))
    × (pulseaudio_close server playing ≡ (pos 0, record closed { world = 100 }))
unfolding pulseaudio_open opened pulseaudio_close close_handle
opens_and_closes = (refl, refl)

transfers :
    (pulseaudio_write server playing frames ≡ (pos 8, record playing { world = 8 }))
    × (pulseaudio_read server playing 8 ≡ (pos 8, replicate 8 6, playing))
unfolding pulseaudio_write write_handle pulseaudio_read read_handle
transfers = (refl, refl)

-- witnesses

abbrev new_audio : Audio (PulseDevice ℕ ℕ)
new_audio = record {
  config = player_config;
  stream = no_config;
  map = no_map;
  device = closed;
  buffer = replicate 1436 0;
}
