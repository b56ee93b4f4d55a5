-- ===== src/Devices/Alsa/Tests.antt =====
-- The ALSA backend on a concrete sound system.
use vban.Prelude.{ℕ, ◌+◌, ◌≡◌, refl, arith, true, [], ◌∷◌, some, none, length, map, replicate}
use vban.Prelude.Int.{pos, negsuc}
use vban.Audio.Interface.{audio_out, initialised}
use vban.Devices.Alsa.{
  Alsa, AlsaDevice, s8, s16, float64, unknown, vban_to_alsa_format, run_calls, alsa_backend_init,
  alsa_close, close_handle, configure, alsa_open, recovered, alsa_write, write_handle, alsa_read,
  read_handle,
}
use vban.Devices.Alsa.Laws.{alsa_write_lem}
use vban.Samples.{stereo, frames}

-- A system that counts the bytes it was given, and one whose device is lost.
abbrev sound : Alsa ℕ ℕ
sound = record {
  pcm_open = λ w name direction. (pos 0, 7, w);
  params_malloc = λ w. (pos 0, w);
  params_any = λ pcm w. (pos 0, w);
  set_access_interleaved = λ pcm w. (pos 0, w);
  set_format = λ pcm format w. (pos 0, w);
  set_rate = λ pcm rate w. (pos 0, w);
  set_channels = λ pcm n w. (pos 0, w);
  set_params = λ pcm w. (pos 0, w);
  params_free = λ w. w;
  prepare = λ pcm w. (pos 0, w);
  pcm_close = λ pcm w. (pos 0, w + 100);
  writei = λ pcm bytes n w. (pos n, w + length bytes);
  readi = λ pcm n w. (pos n, replicate 8 5, w);
  recover = λ pcm code w. (code, w);
}

abbrev lost : Alsa ℕ ℕ
lost = record sound {
  set_rate = λ pcm rate w. (negsuc 21, w);
  writei = λ pcm bytes n w. (negsuc 18, w);
}

abbrev opened : AlsaDevice ℕ ℕ
opened = record { handle = some 7; frame_size = 4; world = 0 }

formats_found : map vban_to_alsa_format (0 ∷ 1 ∷ 5 ∷ 6 ∷ []) ≡ s8 ∷ s16 ∷ float64 ∷ unknown ∷ []
unfolding vban_to_alsa_format
formats_found = refl

init_closed :
    alsa_backend_init sound true 3
    ≡ initialised (record { handle = none; frame_size = 0; world = 3 })
unfolding alsa_backend_init
init_closed = refl

-- A rate that the device does not have closes it again.
rate_refused :
    alsa_open lost opened [] audio_out 0 stereo
    ≡ some (negsuc 21, record { handle = none; frame_size = 4; world = 100 })
unfolding alsa_open configure run_calls alsa_close close_handle
rate_refused = refl

plays_frames : alsa_write sound opened frames ≡ some (pos 8, record opened { world = 8 })
unfolding alsa_write write_handle recovered
plays_frames = refl

reads_frames : alsa_read sound opened 8 ≡ some (pos 8, replicate 8 5, opened)
unfolding alsa_read read_handle recovered
reads_frames = refl

-- witnesses

-- -ENODEV comes back as -76.
alsa_write_lem_example : alsa_write lost opened frames ≡ some (negsuc 75, opened)
alsa_write_lem_example =
    alsa_write_lem lost opened 7 frames 2 refl (omega arith) refl (negsuc 18) 0 refl (omega arith)
