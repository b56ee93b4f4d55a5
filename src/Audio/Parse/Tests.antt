-- ===== src/Audio/Parse/Tests.antt =====
-- Lists of channels on the command line.
use vban.Prelude.{◌≡◌, refl, arith, [], ◌∷◌, none, some}
use vban.Prelude.Int.{pos, einval}
use vban.Prelude.Memory.{splice}
use vban.Prelude.CString.{codes}
use vban.Prelude.Scan.{skip_spaces, digits_value, scan_unsigned, split_tokens, tokens}
use vban.Audio.{no_map}
use vban.Audio.Parse.{parse_channels, audio_parse_map_config}
use vban.Audio.Parse.RoundTrip.{map_text, parse_map_config-map_text}
use vban.Samples.{all_bytes_sound}

list_printed : map_text (0 ∷ 41 ∷ 255 ∷ []) ≡ codes "1,42,256"
unfolding map_text
list_printed = refl

-- An id that is no number repeats the channel before it, and an id above 256 ends the list.
lists_parsed :
    (parse_channels 256 0 (tokens b',' (codes "2,1")) ≡ some (1 ∷ 0 ∷ []))
    × (parse_channels 256 0 (tokens b',' (codes "2,x,1")) ≡ some (1 ∷ 1 ∷ 0 ∷ []))
    × (parse_channels 256 0 (tokens b',' (codes "2,300,1")) ≡ some (1 ∷ []))
    × (parse_channels 1 0 (tokens b',' (codes "2,1")) ≡ some (1 ∷ []))
unfolding parse_channels scan_unsigned skip_spaces digits_value split_tokens tokens
lists_parsed = (refl, refl, refl, refl)

no_argument : audio_parse_map_config (some no_map) none ≡ some (einval, some no_map)
unfolding audio_parse_map_config
no_argument = refl

parse_map_config-map_text_example :
    audio_parse_map_config (some no_map) (some (map_text (1 ∷ 0 ∷ [])))
    ≡ some
        (pos 0, some (record { channels = splice no_map.channels 0 (1 ∷ 0 ∷ []); nb_channels = 2 }))
parse_map_config-map_text_example =
    parse_map_config-map_text no_map (1 ∷ 0 ∷ []) refl (omega arith)
      (all_bytes_sound (1 ∷ 0 ∷ []) refl)
