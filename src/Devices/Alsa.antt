-- ===== src/Devices/Alsa.antt =====
-- src/common/backend/alsa_backend.c: audio to and from an ALSA device. Its functions are called by the
-- audio object only, which passes a device and a block that are not null. A fault is `none`.
pub mod Laws
mod Tests
use vban.Prelude.{
  ℕ, ◌*◌, ◌/◌, ◌%◌, ◌^◌, Bool, true, false, List, [], ◌∷◌, Option, none, some, length, take,
  get_elem?, ◌==◌, if◌then◌else◌, ◌>>=◌,
}
use vban.Prelude.Int.{ℤ, pos, negsuc, is_negative, as_int, as_size, enodev, enomem}
use vban.Prelude.CString.{char_of, codes}
use vban.Vban.{bit_resolution_size}
use vban.Stream.{StreamConfig}
use vban.Audio.Interface.{Direction, InitResult, initialised, refused}

-- `snd_pcm_format_t`, as far as it is used
pub data PcmFormat : Type 0 where
  s8 s16 s24 s32 float float64 unknown : PcmFormat

unfoldable pub vban_to_alsa_format : ℕ → PcmFormat
vban_to_alsa_format bit_resolution =
    if bit_resolution == 0
    then s8
    else if bit_resolution == 1
    then s16
    else if bit_resolution == 2
    then s24
    else if bit_resolution == 3
    then s32
    else if bit_resolution == 4
    then float
    else if bit_resolution == 5
    then float64
    else unknown

-- The functions of ALSA that the backend calls, over the state of the sound system, in which the
-- structure for the hardware parameters is held. `writei` and `readi` count in frames; `readi` returns
-- the bytes that it stores.
pub record Alsa (World Pcm : Type 0) : Type 0 where
  pub pcm_open : World → List ℕ → Direction → ℤ × Pcm × World
  pub params_malloc : World → ℤ × World
  pub params_any : Pcm → World → ℤ × World
  pub set_access_interleaved : Pcm → World → ℤ × World
  pub set_format : Pcm → PcmFormat → World → ℤ × World
  pub set_rate : Pcm → ℕ → World → ℤ × World
  pub set_channels : Pcm → ℕ → World → ℤ × World
  pub set_params : Pcm → World → ℤ × World
  pub params_free : World → World
  pub prepare : Pcm → World → ℤ × World
  pub pcm_close : Pcm → World → ℤ × World
  pub writei : Pcm → List ℕ → ℕ → World → ℤ × World
  pub readi : Pcm → ℕ → World → ℤ × List ℕ × World
  pub recover : Pcm → ℤ → World → ℤ × World

-- `struct alsa_backend_t`, with the state of the sound system. A null handle is `none`.
pub record AlsaDevice (World Pcm : Type 0) : Type 0 where
  pub handle : Option Pcm
  pub frame_size : ℕ
  pub world : World

-- `ret * frame_size`, computed in `size_t` and returned as an `int`.
abbrev pub in_bytes : ℕ → ℤ → ℤ
in_bytes frame_size ret = as_int (as_size ret * frame_size % 2 ^ 64)

module _ {World : Type 0} where
  -- Calls of which the first that returns a negative value ends the sequence.
  unfoldable pub run_calls : List (World → ℤ × World) → World → ℤ × World
  run_calls [] w = (pos 0, w)
  run_calls (call ∷ calls) w =
      let (ret, w') = call w in if is_negative ret then (ret, w') else run_calls calls w'

module _ {World Pcm : Type 0} (alsa : Alsa World Pcm) where
  -- `alsa_backend_init`; the first argument says whether `calloc` gives memory.
  unfoldable pub alsa_backend_init : Bool → World → InitResult (AlsaDevice World Pcm)
  alsa_backend_init false w = refused enomem
  alsa_backend_init true w = initialised (record { handle = none; frame_size = 0; world = w })

  -- `alsa_close` for the handle that the device holds.
  unfoldable pub close_handle : Option Pcm → AlsaDevice World Pcm → ℤ × AlsaDevice World Pcm
  close_handle none d = (pos 0, d)
  close_handle (some pcm) d =
      let (ret, w) = alsa.pcm_close pcm d.world in (ret, record d { handle = none; world = w })

  unfoldable pub alsa_close : AlsaDevice World Pcm → ℤ × AlsaDevice World Pcm
  alsa_close d = close_handle d.handle d

  -- The calls of `alsa_open` behind `snd_pcm_open`: each is followed by the same test.
  abbrev pub open_calls : Pcm → StreamConfig → List (World → ℤ × World)
  open_calls pcm config =
      alsa.params_malloc
      ∷ alsa.params_any pcm
      ∷ alsa.set_access_interleaved pcm
      ∷ alsa.set_format pcm (vban_to_alsa_format config.bit_fmt)
      ∷ alsa.set_rate pcm config.sample_rate
      ∷ alsa.set_channels pcm config.nb_channels
      ∷ alsa.set_params pcm
      ∷ (λ w. alsa.prepare pcm (alsa.params_free w))
      ∷ []

  -- `alsa_open` behind `snd_pcm_open`: a failure closes the device again.
  unfoldable pub configure : Pcm → AlsaDevice World Pcm → StreamConfig → ℤ × AlsaDevice World Pcm
  configure pcm d config =
      let (ret, w) = run_calls (open_calls pcm config) d.world in
      let d' = record d { world = w } in
      if is_negative ret then (ret, (alsa_close d').1) else (pos 0, d')

  unfoldable pub alsa_open :
      AlsaDevice World Pcm
      → List ℕ
      → Direction
      → ℕ
      → StreamConfig
      → Option (ℤ × AlsaDevice World Pcm)
  alsa_open d output_name direction buffer_size config =
      get_elem? bit_resolution_size config.bit_fmt >>= λ sample_size.
      let frame_size = sample_size * config.nb_channels % 2 ^ 32 in
      let name = if char_of output_name == 0 then codes "default" else output_name in
      let (ret, pcm, w) = alsa.pcm_open d.world name direction in
      if is_negative ret
      then some (ret, record { handle = none; frame_size = frame_size; world = w })
      else some
          (configure pcm (record { handle = some pcm; frame_size = frame_size; world = w }) config)

  -- A failed transfer is handed to `snd_pcm_recover`, whose code takes the place of the failed one.
  unfoldable pub recovered : Pcm → ℤ → World → ℤ × World
  recovered pcm ret w = if is_negative ret then alsa.recover pcm ret w else (ret, w)

  -- `alsa_write` for the handle that the device holds. A frame size of 0 faults.
  unfoldable pub write_handle :
      Option Pcm → AlsaDevice World Pcm → List ℕ → Option (ℤ × AlsaDevice World Pcm)
  write_handle none d data_in = some (enodev, d)
  write_handle (some pcm) d data_in =
      if d.frame_size == 0
      then none
      else let nb_frame = length data_in / d.frame_size in
        let (ret, w) = alsa.writei pcm (take (nb_frame * d.frame_size) data_in) nb_frame d.world in
        let (code, w') = recovered pcm ret w in
        some (in_bytes d.frame_size code, record d { world = w' })

  unfoldable pub alsa_write : AlsaDevice World Pcm → List ℕ → Option (ℤ × AlsaDevice World Pcm)
  alsa_write d data_in = write_handle d.handle d data_in

  -- `alsa_read` for the handle that the device holds; the bytes are those that `readi` stores.
  unfoldable pub read_handle :
      Option Pcm → AlsaDevice World Pcm → ℕ → Option (ℤ × List ℕ × AlsaDevice World Pcm)
  read_handle none d size = some (enodev, [], d)
  read_handle (some pcm) d size =
      if d.frame_size == 0
      then none
      else let (ret, bytes, w) = alsa.readi pcm (size / d.frame_size) d.world in
        let (code, w') = recovered pcm ret w in
        some (in_bytes d.frame_size code, bytes, record d { world = w' })

  unfoldable pub alsa_read : AlsaDevice World Pcm → ℕ → Option (ℤ × List ℕ × AlsaDevice World Pcm)
  alsa_read d size = read_handle d.handle d size
