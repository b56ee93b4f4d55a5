-- ===== src/Audio/Parse/RoundTrip.antt =====
-- A list of channels that is printed and read back.
use vban.Prelude.{
  ℕ, zero, suc, ◌+◌, ◌-◌, ◌/◌, ◌%◌, ◌≤◌, ◌<◌, ◌≡◌, refl, ap, ◌∙◌, arith, Bool, true, false, ◌&&◌,
  ◌||◌, List, [], ◌∷◌, ◌++◌, Option, none, some, length, ltb, ◌==◌, if◌then◌else◌, passes_from,
  passes_at,
}
use vban.Prelude.Int.{pos}
use vban.Prelude.Memory.{IsBytes, splice, write_block_in}
use vban.Prelude.Scan.{
  Scanned, end_of_text, no_number, number, skip_spaces, digits_value, scan_unsigned, tokens,
  split_tokens, keep_token,
}
use vban.Prelude.Scan.Laws.{are_digits, split_tokens-digits, split_tokens-last}
use vban.Audio.Channels.{MapConfig}
use vban.Audio.Parse.{parse_channels, audio_parse_map_config}

-- The decimal digits of a number below 1000.
abbrev channel_text : ℕ → List ℕ
channel_text n =
    if ltb n 10
    then (b'0' + n) ∷ []
    else if ltb n 100
    then (b'0' + n / 10) ∷ (b'0' + n % 10) ∷ []
    else (b'0' + n / 100) ∷ (b'0' + n / 10 % 10) ∷ (b'0' + n % 10) ∷ []

-- The ids of channels, with commas between them.
unfoldable pub map_text : List ℕ → List ℕ
map_text [] = []
map_text (c ∷ []) = channel_text (c + 1)
map_text (c ∷ d ∷ cs) = channel_text (c + 1) ++ (b',' ∷ map_text (d ∷ cs))

-- `scan_unsigned` gives the number back, and the text is one token.
same_number : Option Scanned → ℕ → Bool
same_number (some (number m)) n = m == n
same_number other n = false

same_number-eq : (o : Option Scanned) (n : ℕ) → same_number o n ≡ true → o ≡ some (number n)
unfolding same_number
same_number-eq none n h = cc
same_number-eq (some end_of_text) n h = cc
same_number-eq (some no_number) n h = cc
same_number-eq (some (number m)) n h = ground arith

reads : List ℕ → ℕ → Bool
reads [] n = false
reads (c ∷ s) n = are_digits (c ∷ s) && same_number (scan_unsigned (c ∷ s)) n

record IsReadBack (s : List ℕ) (n : ℕ) : Type 0 where
  digits : are_digits s ≡ true
  reads_n : scan_unsigned s ≡ some (number n)
  one_token : keep_token s [] ≡ s ∷ []
  token_first : (more : List (List ℕ)) → keep_token s more ≡ s ∷ more

reads-IsReadBack : (s : List ℕ) (n : ℕ) → reads s n ≡ true → IsReadBack s n
unfolding reads
reads-IsReadBack [] n h = cc
reads-IsReadBack (c ∷ s) n h = record {
  digits = ground arith;
  reads_n = same_number-eq (scan_unsigned (c ∷ s)) n (ground arith);
  one_token = refl;
  token_first = λ more. refl;
}

all_read_back : passes_from (λ n. reads (channel_text n) n) 257 0 ≡ true
unfolding passes_from reads same_number scan_unsigned skip_spaces digits_value
all_read_back = refl

channel_text-IsReadBack : (n : ℕ) → n ≤ 256 → IsReadBack (channel_text n) n
channel_text-IsReadBack n h =
    reads-IsReadBack (channel_text n) n
      (passes_at (λ k. reads (channel_text k) k) 257 0 n (omega arith) (omega arith) all_read_back)

tokens-map_text :
    (c d : ℕ) (cs : List ℕ)
    → c < 256
    → tokens b',' (map_text (c ∷ d ∷ cs)) ≡ channel_text (c + 1) ∷ tokens b',' (map_text (d ∷ cs))
unfolding map_text tokens
tokens-map_text c d cs h =
    let back = channel_text-IsReadBack (c + 1) (omega arith) in
    rw (split_tokens-digits (channel_text (c + 1)) (map_text (d ∷ cs)) back.digits)
      (back.token_first _)

tokens-map_text_last :
    (c : ℕ) → c < 256 → tokens b',' (map_text (c ∷ [])) ≡ channel_text (c + 1) ∷ []
unfolding map_text tokens
tokens-map_text_last c h =
    let back = channel_text-IsReadBack (c + 1) (omega arith) in
    rw (split_tokens-last (channel_text (c + 1)) back.digits) back.one_token

parse_channels_end : (room chan : ℕ) → parse_channels room chan [] ≡ some []
unfolding parse_channels
parse_channels_end zero chan = refl
parse_channels_end (suc room) chan = refl

parse_channels-channel_text :
    (room chan c : ℕ) (texts : List (List ℕ)) (rest : List ℕ)
    → c < 256
    → parse_channels room (c + 1) texts ≡ some rest
    → parse_channels (suc room) chan (channel_text (c + 1) ∷ texts) ≡ some (c ∷ rest)
unfolding parse_channels
parse_channels-channel_text room chan c texts rest h e =
    let back = channel_text-IsReadBack (c + 1) (omega arith) in
    let valid : (ltb 256 (c + 1) || ltb (c + 1) 1) ≡ false = ground arith in
    let same : (c + 1 - 1) % 256 ≡ c = omega arith in rw (back.reads_n, valid, e, same) refl

parse_channels-map_text :
    (room chan : ℕ) (cs : List ℕ)
    → length cs ≤ room
    → IsBytes cs
    → parse_channels room chan (tokens b',' (map_text cs)) ≡ some cs
unfolding map_text tokens split_tokens
parse_channels-map_text room chan [] short bytes = parse_channels_end room chan
parse_channels-map_text zero chan (c ∷ cs) short bytes = absurd (omega arith)
parse_channels-map_text (suc room) chan (c ∷ []) short bytes =
    ap (parse_channels (suc room) chan) (tokens-map_text_last c (bytes 0))
    ∙ parse_channels-channel_text room chan c [] [] (bytes 0) (parse_channels_end room (c + 1))
parse_channels-map_text (suc room) chan (c ∷ d ∷ cs) short bytes =
    ap (parse_channels (suc room) chan) (tokens-map_text c d cs (bytes 0))
    ∙ parse_channels-channel_text room chan c (tokens b',' (map_text (d ∷ cs))) (d ∷ cs) (bytes 0)
        (parse_channels-map_text room (c + 1) (d ∷ cs) (omega arith) (λ i. bytes (suc i)))

-- The ids of at most 256 channels, printed with commas between them, are read back: the map has those
-- channels in its first entries and their number in `nb_channels`, and the other entries stay.
pub parse_map_config-map_text :
    (map : MapConfig) (cs : List ℕ)
    → length map.channels ≡ 256
    → length cs ≤ 256
    → IsBytes cs
    → audio_parse_map_config (some map) (some (map_text cs))
      ≡ some (pos 0, some (record { channels = splice map.channels 0 cs; nb_channels = length cs }))
unfolding audio_parse_map_config
parse_map_config-map_text map cs all short bytes =
    rw
      (parse_channels-map_text 256 0 cs short bytes, write_block_in map.channels 0 cs (omega arith))
      refl
