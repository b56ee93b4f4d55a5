-- ===== src/Audio/Parse.antt =====
-- `audio_parse_map_config` of src/common/audio.c: the list of channels on the command line.
pub mod Laws
pub mod RoundTrip
mod Tests
use vban.Prelude.{
  ℕ, zero, suc, ◌-◌, ◌%◌, Bool, ◌||◌, List, [], ◌∷◌, Option, none, some, length, ltb, if◌then◌else◌,
  ◌>>=◌,
}
use vban.Prelude.Int.{ℤ, pos, einval}
use vban.Prelude.Memory.{write_block}
use vban.Prelude.Scan.{Scanned, end_of_text, no_number, number, scan_unsigned, tokens}
use vban.Audio.Channels.{MapConfig}

-- The channel that is stored for an id; an id that is no channel ends the loop.
abbrev pub store_channel : ℕ → Option (List ℕ) → Option (List ℕ)
store_channel chan rest =
    if ltb 256 chan || ltb chan 1
    then some []
    else (rest >>= λ channels. some ((chan - 1) % 256 ∷ channels))

-- The body of the loop for what `sscanf` did; `chan` keeps its value where no number is read. The
-- last argument is the rest of the loop, for the value of `chan`.
abbrev pub on_scanned : ℕ → Scanned → (ℕ → Option (List ℕ)) → Option (List ℕ)
on_scanned chan end_of_text rest = some []
on_scanned chan no_number rest = store_channel chan (rest chan)
on_scanned chan (number n) rest = store_channel n (rest n)

-- The entries that the loop stores; `room` is `VBAN_CHANNELS_MAX_NB - index`.
unfoldable pub parse_channels : ℕ → ℕ → List (List ℕ) → Option (List ℕ)
parse_channels zero chan texts = some []
parse_channels (suc room) chan [] = some []
parse_channels (suc room) chan (token ∷ texts) = scan_unsigned token >>= λ scanned.
    on_scanned chan scanned (λ next. parse_channels room next texts)

-- `audio_parse_map_config`: the code, and what is stored through `map_config`.
unfoldable pub audio_parse_map_config :
    Option MapConfig → Option (List ℕ) → Option (ℤ × Option MapConfig)
audio_parse_map_config none argv = some (einval, none)
audio_parse_map_config (some map) none = some (einval, some map)
audio_parse_map_config (some map) (some argv) = do
  channels ← parse_channels 256 0 (tokens b',' argv)
  stored ← write_block map.channels 0 channels
  some (pos 0, some (record { channels = stored; nb_channels = length channels }))
