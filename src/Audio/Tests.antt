-- ===== src/Audio/Tests.antt =====
-- The audio object on concrete streams, maps and blocks.
use vban.Prelude.{
  ℕ, ◌+◌, ◌≤◌, ◌<◌, ◌≡◌, refl, arith, List, [], ◌∷◌, some, true, false, length, get_or, get_elem?,
  replicate, ltb, if◌then◌else◌,
}
use vban.Prelude.Int.{ℤ, pos, negsuc, is_negative, einval}
use vban.Prelude.Memory.{slice, splice}
use vban.Prelude.CString.{codes}
use vban.Audio.{
  Audio, audio_write, audio_read, audio_set_stream_config, change_stream, open_stream,
  get_device_config, map_reverse_result,
}
use vban.Audio.Interface.{Backend, BackendItem, initialised, refused}
use vban.Audio.Interface.Help.{
  backend_list, names_text, help_text, audio_backend_get_help, IsPrinted, get_help_lem,
}
use vban.Audio.Channels.{MapConfig, map_channels}
use vban.Audio.Channels.Cells.{cell}
use vban.Audio.Channels.Spec.{map_channels_lem, cleared_byte}
use vban.Audio.Writing.{audio_write_mapped, audio_write_hides_errors}
use vban.Audio.Capture.{audio_read_mapped}
use vban.Samples.{
  stereo, frames, recorder, idle, Recorder, new_player, player, swap, swapped_player,
}

abbrev dest : List ℕ
dest = replicate 12 9

-- Three channels, of which the stream has the second and the first only.
abbrev three : MapConfig
three = record { channels = 1 ∷ 5 ∷ 0 ∷ []; nb_channels = 3 }

-- witnesses

map_channels_lem_example :
    (out : List ℕ) × (map_channels 2 2 8 three frames dest ≡ some out)
    × (length out ≡ 12)
    × ((c f b source : ℕ)
        → c < 3
        → get_elem? three.channels c ≡ some source
        → f < 2
        → b < 2
        → get_or out (cell 2 3 f c + b) 0 ≡ (
            if ltb source 2
            then get_or frames (cell 2 2 f source + b) 0
            else cleared_byte 2 2 8 three frames dest (cell 2 3 f c + b)))
    × ((i : ℕ) → 12 ≤ i → get_or out i 0 ≡ cleared_byte 2 2 8 three frames dest i)
map_channels_lem_example =
    map_channels_lem 2 2 8 three frames dest (omega arith) (omega arith) (omega arith) (omega arith)
      (omega arith)

-- A backend that fails.
abbrev failing : Backend Recorder
failing = record recorder { write_data = λ d bytes. (negsuc 31, d) }

audio_write_hides_errors_example :
    (ret : ℤ) × (a' : Audio Recorder) × (audio_write failing (some swapped_player) (some frames) 8
      ≡ some (ret, some a'))
    × (is_negative ret ≡ false)
audio_write_hides_errors_example =
    audio_write_hides_errors failing swapped_player frames 2 2 refl (omega arith) (omega arith)
      (omega arith) (omega arith) (omega arith) refl (omega arith) (omega arith) (omega arith)
      (omega arith)

audio_write_mapped_example :
    (out : List ℕ) × (map_channels 2 2 8 swap frames swapped_player.buffer ≡ some out)
    × (let done = recorder.write_data swapped_player.device (slice out 0 8) in
        audio_write recorder (some swapped_player) (some frames) 8
        ≡ some (
          map_reverse_result stereo swap done.0,
          some (record swapped_player { buffer = out; device = done.1 }),
        ))
    × ((recorder.write_data swapped_player.device (slice out 0 8)).0 ≡ pos 8
        → map_reverse_result stereo swap
            (recorder.write_data swapped_player.device (slice out 0 8)).0
          ≡ pos 8)
audio_write_mapped_example =
    audio_write_mapped recorder swapped_player frames 2 2 refl (omega arith) (omega arith)
      (omega arith) (omega arith) (omega arith) refl (omega arith) (omega arith) (omega arith)

opens_once : audio_set_stream_config recorder (some new_player) (some stereo) ≡ (pos 0, some player)
unfolding audio_set_stream_config change_stream open_stream get_device_config
opens_once = refl

-- The lists of two builds.

abbrev full_build : List (BackendItem Recorder)
full_build =
    backend_list (record { alsa = true; pulseaudio = true; jack = true }) (initialised idle)
      (initialised idle) (initialised idle) (initialised idle) (refused einval)

abbrev pipe_item : BackendItem Recorder
pipe_item = record { name = codes "pipe"; init_function = initialised idle }

abbrev file_item : BackendItem Recorder
file_item = record { name = codes "file"; init_function = refused einval }

smallest_build :
    backend_list {Device = Recorder}
      (record { alsa = false; pulseaudio = false; jack = false })
      (initialised idle)
      (initialised idle)
      (initialised idle)
      (initialised idle)
      (refused einval)
    ≡ pipe_item ∷ file_item ∷ []
smallest_build = refl

smallest_text :
    help_text pipe_item (file_item ∷ [])
    ≡ codes "Available audio backends are: pipe file . default is pipe."
smallest_text = refl

full_fits : length (names_text full_build) ≡ 31
full_fits = refl

get_help_lem_example :
    (m : List ℕ) × (audio_backend_get_help pipe_item (file_item ∷ []) ≡ some m)
    × IsPrinted (help_text pipe_item (file_item ∷ [])) m
get_help_lem_example = get_help_lem pipe_item (file_item ∷ []) (omega arith)

-- The device has two frames for a block of 8 bytes, in which the channels are swapped.
audio_read_mapped_example :
    (out : List ℕ) × (map_channels 2 2 8 swap
        (splice (replicate 1436 0) 0 (replicate 8 7))
        (replicate 1436 0)
      ≡ some out)
    × (audio_read recorder (some swapped_player) (some (replicate 1436 0)) 8
        ≡ some (
          pos 8,
          some (record swapped_player { buffer = splice (replicate 1436 0) 0 (replicate 8 7) }),
          some out,
        ))
audio_read_mapped_example =
    audio_read_mapped recorder swapped_player (replicate 1436 0) (replicate 8 7)
      swapped_player.device 2 2 refl (omega arith) (omega arith) (omega arith) (omega arith)
      (omega arith) refl (omega arith) refl refl refl (omega arith)
