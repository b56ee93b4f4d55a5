-- ===== src/Receptor/Options/Laws.antt =====
-- The configuration of the receptor that its options give.
use vban.Prelude.{
  ℕ, zero, suc, ◌*◌, ◌%◌, ltb, ◌≤◌, ◌<◌, ◌≡◌, ◌≢◌, refl, ap, arith, ◌||◌, false, List, Option, some,
  length, ◌==◌, if◌then◌else◌, Bool-cases, inl, inr, >>=-some, some_inj,
}
use vban.Prelude.Int.{ℤ, pos, negsuc, as_uint}
use vban.Prelude.CString.{text_of}
use vban.Options.{options_loop, copy_arg, int_arg, set_ip_address, set_port, is_missing}
use vban.Prelude.{Ensures, Ensures-if, Ensures-case, Ensures->>=, Ensures-any, Ensures-some}
use vban.Options.Laws.{
  IsText, is_missing_lem, ArgIsBytes, ItemsAreBytes, copy_arg-IsText, IsSocketConfig, IsAudioConfig,
  IsMapConfig, zeros-IsText, no_map-IsMapConfig, parse_map_config-IsMapConfig,
  set_ip_address-IsSocketConfig, set_port-IsSocketConfig, options_loop-Ensures,
}
use vban.Socket.{SocketConfig, socket_in}
use vban.Audio.{AudioConfig}
use vban.Audio.Interface.{audio_out}
use vban.Audio.Parse.{audio_parse_map_config}
use vban.Receptor.{samples_of, ReceptorConfig, compute_size}
use vban.Receptor.Options.{
  ReceptorOptions, no_options, with_socket, with_audio, set_channels, receptor_option, for_output,
  check_options, get_options,
}

-- Texts that end inside their arrays, and a map of at most 256 channels, each a byte.
abbrev pub IsReceptorConfig : ReceptorConfig → Type 0
IsReceptorConfig config =
    IsSocketConfig config.socket
    × IsText 16 config.stream_name
    × IsAudioConfig config.audio
    × IsMapConfig config.map

abbrev IsStored : ReceptorOptions → Type 0
IsStored o = IsReceptorConfig o.config

abbrev Keeps : Option (ℤ × ReceptorOptions) → Type 0
Keeps = Ensures (λ r. IsStored (r.1))

module _ (o : ReceptorOptions) (valid : IsStored o) where
  set_channels-IsStored : (optarg : Option (List ℕ)) → Keeps (set_channels o optarg)
  unfolding set_channels
  set_channels-IsStored optarg =
      Ensures->>= (λ r. Ensures IsMapConfig (r.1)) (λ r. IsStored (r.1))
        (audio_parse_map_config (some o.config.map) optarg) _
        (parse_map_config-IsMapConfig o.config.map optarg valid.3)
        (λ r stored.
          Ensures->>= IsMapConfig (λ s. IsStored (s.1)) (r.1) _ stored
            (λ map t. (valid.0, valid.1, valid.2, t)))

  with_socket-IsStored :
      (socket : SocketConfig) → IsSocketConfig socket → Keeps (with_socket o socket)
  with_socket-IsStored socket t = (t, valid.1, valid.2, valid.3)

  with_audio-IsStored : (audio : AudioConfig) → IsAudioConfig audio → Keeps (with_audio o audio)
  with_audio-IsStored audio t = (valid.0, valid.1, t, valid.3)

  receptor_option-IsStored :
      (c : ℕ) (optarg : Option (List ℕ)) → ArgIsBytes optarg → Keeps (receptor_option c optarg o)
  unfolding receptor_option
  receptor_option-IsStored c optarg arg =
      let P = λ (r : ℤ × ReceptorOptions). IsStored (r.1) in
      Ensures-case IsSocketConfig P (c == b'i') (set_ip_address o.config.socket optarg) _ _
        (set_ip_address-IsSocketConfig o.config.socket optarg arg valid.0) with_socket-IsStored
        (Ensures-case IsSocketConfig P (c == b'p') (set_port o.config.socket optarg) _ _
          (set_port-IsSocketConfig o.config.socket optarg valid.0) with_socket-IsStored
          (Ensures-case (IsText 16) P (c == b's') (copy_arg o.config.stream_name 16 optarg) _ _
            (copy_arg-IsText o.config.stream_name 16 optarg (omega arith) arg valid.1)
            (λ name t. (valid.0, t, valid.2, valid.3))
            (Ensures-case (IsText 32) P (c == b'b') (copy_arg o.config.audio.backend_name 32 optarg)
              _ _
              (copy_arg-IsText o.config.audio.backend_name 32 optarg (omega arith) arg valid.2.0)
              (λ name t.
                with_audio-IsStored (record (o.config.audio) { backend_name = name })
                  (t, valid.2.1))
              (Ensures-case (λ n. Unit {0}) P (c == b'q') (int_arg optarg) _ _
                (Ensures-any (int_arg optarg)) (λ n _. valid)
                (Ensures-if P (c == b'c') _ _ (set_channels-IsStored optarg) (
                  Ensures-case (IsText 64) P (c == b'o' || c == b'd')
                    (copy_arg o.config.audio.device_name 64 optarg) _ _
                    (copy_arg-IsText o.config.audio.device_name 64 optarg (omega arith) arg
                      valid.2.1)
                    (λ name t.
                      with_audio-IsStored (record (o.config.audio) { device_name = name })
                        (valid.2.0, t))
                    (Ensures-case (λ n. Unit {0}) P (c == b'l') (int_arg optarg) _ _
                      (Ensures-any (int_arg optarg)) (λ n _. valid) valid)))))))

no_options-IsStored : IsStored no_options
no_options-IsStored =
    (zeros-IsText 32, zeros-IsText 16, (zeros-IsText 32, zeros-IsText 64), no_map-IsMapConfig)

-- What the receptor is started with.
pub record IsReceptorReady (config : ReceptorConfig) : Type 0 where
  pub valid : IsReceptorConfig config
  pub address : 0 < length (text_of config.socket.ip_address)
  pub name : 0 < length (text_of config.stream_name)
  pub port : config.socket.port ≢ pos 0
  pub direction : config.socket.direction ≡ socket_in
  pub output : config.audio.direction ≡ audio_out
  pub buffer : 1464 ≤ config.audio.buffer_size

at_least : (n : ℕ) → 1464 ≤ (if ltb n 1464 then 1464 else n)
at_least n = ground arith

for_output-IsReceptorReady :
    (o : ReceptorOptions)
    → IsStored o
    → is_missing o.config.socket o.config.stream_name ≡ false
    → IsReceptorReady (for_output o)
unfolding compute_size
for_output-IsReceptorReady o stored given =
    let (address, name, port) = is_missing_lem o.config.socket o.config.stream_name given in
    record {
      valid = (stored.0, stored.1, stored.2, stored.3);
      address = address;
      name = name;
      port = port;
      direction = refl;
      output = refl;
      buffer = at_least (samples_of (as_uint o.quality % 256) * 3);
    }

check_options-IsReceptorReady :
    (ret : ℤ) (o : ReceptorOptions) {config : ReceptorConfig}
    → IsStored o
    → check_options ret o ≡ (pos 0, config)
    → IsReceptorReady config
unfolding check_options
check_options-IsReceptorReady (pos zero) o {config} stored h =
    elim (Bool-cases (is_missing o.config.socket o.config.stream_name)) [
      | inl missing ↦
          let codes_eq : ◌≡◌ {A = ℤ × ReceptorConfig} (pos 1, for_output o) (pos 0, config) =
            rw missing at h in
          absurd (ground arith)
      | inr given ↦
          let same : ◌≡◌ {A = ℤ × ReceptorConfig} (pos 0, for_output o) (pos 0, config) =
            rw given at h in
          let found : for_output o ≡ config = ap (λ r. r.1) same in
          rw (← found) (for_output-IsReceptorReady o stored given)
    ]
check_options-IsReceptorReady (pos (suc n)) o stored h = absurd (ground arith)
check_options-IsReceptorReady (negsuc n) o stored h = cc

-- When the arguments of the options are bytes and `get_options` returns 0, the address, the stream's
-- name, the backend and the device are texts that end inside their arrays, the first two are not empty,
-- the port is not 0, the map has at most 256 channels, each a byte, and the audio object is an output
-- with a buffer of at least 1464 bytes.
pub get_options-IsReceptorReady :
    (items : List (ℕ × Option (List ℕ))) {config : ReceptorConfig}
    → ItemsAreBytes items
    → get_options items ≡ some (pos 0, config)
    → IsReceptorReady config
unfolding get_options
get_options-IsReceptorReady items bytes h =
    let (r, loops, checks) = >>=-some (options_loop receptor_option items no_options) _ h in
    let stored =
      Ensures-some (λ r. IsStored (r.1))
        (options_loop-Ensures IsStored receptor_option
          (λ c optarg o arg valid. receptor_option-IsStored o valid c optarg arg) items no_options
          bytes no_options-IsStored)
        loops in
    check_options-IsReceptorReady (r.0) (r.1) stored (some_inj checks)
