-- ===== src/Options/Laws.antt =====
-- What an option leaves in the configuration: texts that end inside their arrays, and a map of channels.
use vban.Prelude.{
  ℕ, zero, suc, ◌-◌, ◌≤◌, ◌<◌, ◌≡◌, ◌≢◌, ◌∙◌, arith, Bool, ◌||◌, true, false, List, [], ◌∷◌, Option,
  none, some, length, get_or, ◌==◌, Ensures, Ensures-if, Ensures->>=, Ensures-any, inr, ◌+◌, refl,
  replicate, get_or-replicate, length-replicate,
}
use vban.Prelude.Int.{ℤ, pos, negsuc, is_zero}
use vban.Prelude.Memory.{IsBytes, splice-IsBytes, length-splice, get_or-splice_out, write_block_in}
use vban.Prelude.CString.{char_of, text_of, strncpy, length-strncpy, strncpy-IsBytes}
use vban.Socket.{SocketConfig}
use vban.Audio.{AudioConfig, no_map}
use vban.Audio.Channels.{MapConfig}
use vban.Audio.Parse.{audio_parse_map_config}
use vban.Audio.Parse.Laws.{audio_parse_map_config_bounds}
use vban.Options.{options_loop, is_missing, copy_arg, int_arg, set_ip_address, set_port}

-- A C string in an array of `n` bytes, the last of which is NUL.
pub record IsText (n : ℕ) (m : List ℕ) : Type 0 where
  pub size : length m ≡ n
  pub ends : get_or m (n - 1) 0 ≡ 0
  pub bytes : IsBytes m

text_of_short : (m : List ℕ) (i : ℕ) → i < length m → get_or m i 0 ≡ 0 → length (text_of m) ≤ i
text_of_short [] i h e = absurd (omega arith)
text_of_short (c ∷ m) zero h e = ground arith
text_of_short (c ∷ m) (suc i) h e = ground (arith, text_of_short m i)

pub IsText-lt : (n : ℕ) (m : List ℕ) → 0 < n → IsText n m → length (text_of m) < n
IsText-lt n m h t = omega (arith, t.size, text_of_short m (n - 1) (omega (arith, t.size)) t.ends)

char_of-text_of : (m : List ℕ) → (char_of m == 0) ≡ false → 0 < length (text_of m)
char_of-text_of [] h = cc
char_of-text_of (c ∷ m) h = rw h (omega arith)

or_false : (a b : Bool) → (a || b) ≡ false → (a ≡ false) × (b ≡ false)
or_false true b h = cc
or_false false b h = (refl, h)

is_zero-ne : (z : ℤ) → is_zero z ≡ false → z ≢ pos 0
is_zero-ne (pos zero) h = cc
is_zero-ne (pos (suc n)) h = λ e. ground arith
is_zero-ne (negsuc n) h = cc

-- What the test for the options that have to be given says of those that were given.
pub is_missing_lem :
    (socket : SocketConfig) (name : List ℕ)
    → is_missing socket name ≡ false
    → (0 < length (text_of socket.ip_address)) × (0 < length (text_of name)) × (socket.port ≢ pos 0)
is_missing_lem socket name h =
    let (no_ip, others) = or_false (char_of socket.ip_address == 0) _ h in
    let (no_port, no_name) = or_false (is_zero socket.port) (char_of name == 0) others in
    (
      char_of-text_of socket.ip_address no_ip,
      char_of-text_of name no_name,
      λ e. is_zero-ne socket.port no_port e,
    )

-- The argument of an option is a list of bytes.
abbrev pub ArgIsBytes : Option (List ℕ) → Type 0
ArgIsBytes none = Unit {0}
ArgIsBytes (some s) = IsBytes s

abbrev pub ItemsAreBytes : List (ℕ × Option (List ℕ)) → Type 0
ItemsAreBytes [] = Unit {0}
ItemsAreBytes ((c, optarg) ∷ items) = ArgIsBytes optarg × ItemsAreBytes items

pub copy_arg-IsText :
    (dest : List ℕ) (n : ℕ) (optarg : Option (List ℕ))
    → 0 < n
    → ArgIsBytes optarg
    → IsText n dest
    → Ensures (IsText n) (copy_arg dest n optarg)
copy_arg-IsText dest n none h arg t = tt
copy_arg-IsText dest n (some s) h arg t =
    let copied = length-strncpy (n - 1) s in
    let fits : 0 + length (strncpy (n - 1) s) ≤ length dest = omega (arith, t.size) in
    rw (write_block_in dest 0 (strncpy (n - 1) s) fits) (record {
      size = length-splice dest 0 (strncpy (n - 1) s) fits ∙ t.size;
      ends = get_or-splice_out dest 0 (strncpy (n - 1) s) (n - 1) fits (inr (omega arith)) ∙ t.ends;
      bytes =
          splice-IsBytes dest 0 (strncpy (n - 1) s) fits t.bytes (strncpy-IsBytes (n - 1) s arg);
    })

-- An option of the socket changes no other part of its configuration.
abbrev pub IsSocketConfig : SocketConfig → Type 0
IsSocketConfig socket = IsText 32 socket.ip_address

pub set_ip_address-IsSocketConfig :
    (socket : SocketConfig) (optarg : Option (List ℕ))
    → ArgIsBytes optarg
    → IsSocketConfig socket
    → Ensures IsSocketConfig (set_ip_address socket optarg)
unfolding set_ip_address
set_ip_address-IsSocketConfig socket optarg arg t =
    Ensures->>= (IsText 32) IsSocketConfig (copy_arg socket.ip_address 32 optarg) _
      (copy_arg-IsText socket.ip_address 32 optarg (omega arith) arg t) (λ ip is_text. is_text)

pub set_port-IsSocketConfig :
    (socket : SocketConfig) (optarg : Option (List ℕ))
    → IsSocketConfig socket
    → Ensures IsSocketConfig (set_port socket optarg)
unfolding set_port
set_port-IsSocketConfig socket optarg t =
    Ensures->>= (λ n. Unit {0}) IsSocketConfig (int_arg optarg) _ (Ensures-any (int_arg optarg))
      (λ n _. t)

abbrev pub IsAudioConfig : AudioConfig → Type 0
IsAudioConfig audio = IsText 32 audio.backend_name × IsText 64 audio.device_name

abbrev pub IsMapConfig : MapConfig → Type 0
IsMapConfig map = (length map.channels ≡ 256) × IsBytes map.channels × (map.nb_channels ≤ 256)

Ensures-IsMapConfig :
    (o : Option (ℤ × Option MapConfig))
    → ((ret : ℤ) (map : MapConfig) → o ≡ some (ret, some map) → IsMapConfig map)
    → Ensures (λ r. Ensures IsMapConfig (r.1)) o
Ensures-IsMapConfig none h = tt
Ensures-IsMapConfig (some (ret, none)) h = tt
Ensures-IsMapConfig (some (ret, some map)) h = h ret map refl

pub parse_map_config-IsMapConfig :
    (map : MapConfig) (optarg : Option (List ℕ))
    → IsMapConfig map
    → Ensures (λ r. Ensures IsMapConfig (r.1)) (audio_parse_map_config (some map) optarg)
unfolding audio_parse_map_config
parse_map_config-IsMapConfig map none valid = valid
parse_map_config-IsMapConfig map (some argv) valid =
    Ensures-IsMapConfig (audio_parse_map_config (some map) (some argv)) (λ ret stored h.
      let bounds = audio_parse_map_config_bounds map argv valid.0 valid.1 h in
      (bounds.1, bounds.2, bounds.3))

pub zeros-IsText : (n : ℕ) → IsText n (replicate n 0)
zeros-IsText n = record {
  size = length-replicate {A = ℕ} n 0;
  ends = get_or-replicate n (n - 1) 0;
  bytes = λ i. rw get_or-replicate (omega arith);
}

pub no_map-IsMapConfig : IsMapConfig no_map
no_map-IsMapConfig =
    (length-replicate {A = ℕ} 256 0, λ i. rw get_or-replicate (omega arith), omega arith)

-- An invariant of the cases of the `switch` is one of the loop.
pub options_loop-Ensures :
    {C : Type 0} (P : C → Type 0) (handle : ℕ → Option (List ℕ) → C → Option (ℤ × C))
    → ((c : ℕ) (optarg : Option (List ℕ)) (config : C)
        → ArgIsBytes optarg
        → P config
        → Ensures (λ r. P (r.1)) (handle c optarg config))
    → (items : List (ℕ × Option (List ℕ))) (config : C) → ItemsAreBytes items
    → P config
    → Ensures (λ r. P (r.1)) (options_loop handle items config)
unfolding options_loop
options_loop-Ensures P handle keeps [] config args h = h
options_loop-Ensures P handle keeps ((c, optarg) ∷ items) config args h =
    Ensures->>= (λ r. P (r.1)) (λ r. P (r.1)) (handle c optarg config) _
      (keeps c optarg config args.0 h)
      (λ r h'.
        Ensures-if (λ r. P (r.1)) (is_zero r.0) (options_loop handle items r.1) (some r)
          (options_loop-Ensures P handle keeps items r.1 args.1 h') h')
