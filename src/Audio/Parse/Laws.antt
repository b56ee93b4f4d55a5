-- ===== src/Audio/Parse/Laws.antt =====
-- The list of channels: what is stored is in range.
use vban.Prelude.{
  ℕ, zero, suc, ◌+◌, ◌-◌, ◌%◌, ◌≤◌, ◌≡◌, refl, sym, ◌∙◌, arith, ◌||◌, Bool-cases, inl, inr, List,
  [], ◌∷◌, Option, none, some, length, ltb, ◌>>=◌, >>=-some,
}
use vban.Prelude.Int.{ℤ, pos}
use vban.Prelude.Memory.{IsBytes, splice, write_block_in, splice-IsBytes, length-splice}
use vban.Prelude.Scan.{Scanned, end_of_text, no_number, number, scan_unsigned, tokens}
use vban.Audio.Channels.{MapConfig}
use vban.Audio.Parse.{store_channel, on_scanned, parse_channels, audio_parse_map_config}

-- At most 256 entries, each a byte.
abbrev AreStored : ℕ → Option (List ℕ) → Type 0
AreStored room none = 0 ≤ 0
AreStored room (some channels) = (length channels ≤ room) × IsBytes channels

store_channel-AreStored :
    (room chan : ℕ) (rest : Option (List ℕ))
    → AreStored room rest
    → AreStored (suc room) (store_channel chan rest)
store_channel-AreStored room chan rest stored = elim (Bool-cases (ltb 256 chan || ltb chan 1)) [
  | inl invalid ↦ rw invalid (omega arith, λ i. omega arith)
  | inr valid ↦ rw valid (store_behind rest stored)
]
  where
    with_first : (channels : List ℕ) → IsBytes channels → IsBytes ((chan - 1) % 256 ∷ channels)
    with_first channels bytes zero = omega arith
    with_first channels bytes (suc i) = bytes i

    store_behind :
        (rest : Option (List ℕ))
        → AreStored room rest
        → AreStored (suc room) (rest >>= λ channels. some ((chan - 1) % 256 ∷ channels))
    store_behind none h = omega arith
    store_behind (some channels) h = (omega (arith, h.0), with_first channels h.1)

on_scanned-AreStored :
    (room chan : ℕ) (scanned : Option Scanned) (rest : ℕ → Option (List ℕ))
    → ((next : ℕ) → AreStored room (rest next))
    → AreStored (suc room) (scanned >>= λ read. on_scanned chan read rest)
on_scanned-AreStored room chan none rest h = omega arith
on_scanned-AreStored room chan (some end_of_text) rest h = (omega arith, λ i. omega arith)
on_scanned-AreStored room chan (some no_number) rest h =
    store_channel-AreStored room chan (rest chan) (h chan)
on_scanned-AreStored room chan (some (number n)) rest h =
    store_channel-AreStored room n (rest n) (h n)

parse_channels-AreStored :
    (room chan : ℕ) (texts : List (List ℕ)) → AreStored room (parse_channels room chan texts)
unfolding parse_channels
parse_channels-AreStored zero chan texts = (omega arith, λ i. omega arith)
parse_channels-AreStored (suc room) chan [] = (omega arith, λ i. omega arith)
parse_channels-AreStored (suc room) chan (token ∷ texts) =
    on_scanned-AreStored room chan (scan_unsigned token) (λ next. parse_channels room next texts)
      (λ next. parse_channels-AreStored room next texts)

AreStored-some :
    (room : ℕ) {o : Option (List ℕ)} {channels : List ℕ}
    → AreStored room o
    → o ≡ some channels
    → AreStored room (some channels)
AreStored-some room h e = rw e at h

abbrev map_with : MapConfig → List ℕ → MapConfig
map_with map channels = record {
  channels = splice map.channels 0 channels;
  nb_channels = length channels;
}

-- Whatever the text, a map that is stored has 256 entries, each a byte, of which at most 256 are used,
-- when the map before had 256 bytes; the code is 0 then.
pub audio_parse_map_config_bounds :
    (map : MapConfig) (argv : List ℕ) {ret : ℤ} {map' : MapConfig}
    → length map.channels ≡ 256
    → IsBytes map.channels
    → audio_parse_map_config (some map) (some argv) ≡ some (ret, some map')
    → (ret ≡ pos 0)
      × (length map'.channels ≡ 256)
      × IsBytes map'.channels
      × (map'.nb_channels ≤ 256)
unfolding audio_parse_map_config
audio_parse_map_config_bounds map argv {ret} {map'} all bytes h =
    let (channels, parses, stores) = >>=-some (parse_channels 256 0 (tokens b',' argv)) _ h in
    let (short, stored_bytes) =
      AreStored-some 256 (parse_channels-AreStored 256 0 (tokens b',' argv)) parses in
    let fits : 0 + length channels ≤ length map.channels = omega arith in
    let same : ◌≡◌ {A = Option (ℤ × Option MapConfig)} (some (ret, some map'))
        (some (pos 0, some (map_with map channels))) =
      sym stores ∙ rw (write_block_in map.channels 0 channels fits) refl in
    let new : map' ≡ map_with map channels = cc in
    let code : ret ≡ pos 0 = cc in
    (
      code,
      rw new (length-splice map.channels 0 channels fits ∙ all),
      rw new (splice-IsBytes map.channels 0 channels fits bytes stored_bytes),
      rw new short,
    )
