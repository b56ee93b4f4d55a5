-- ===== src/Emitter/Options/Laws.antt =====
-- The configuration of the emitter that its options give.
use vban.Prelude.{
  ℕ, zero, suc, ◌≤◌, ◌<◌, ◌≡◌, ◌≢◌, ap, arith, List, Option, some, length, take, ◌==◌, Bool-cases,
  inl, inr, >>=-some, some_inj,
}
use vban.Prelude.Int.{ℤ, pos, negsuc, as_uint, as_size}
use vban.Prelude.CString.{text_of, codes, strncmp_eq, strncmp_eq_iff}
use vban.Options.{options_loop, copy_arg, int_arg, set_ip_address, set_port, is_missing}
use vban.Prelude.{Ensures, Ensures-if, Ensures-case, Ensures->>=, Ensures-any, Ensures-some}
use vban.Options.Laws.{
  IsText, is_missing_lem, ArgIsBytes, ItemsAreBytes, copy_arg-IsText, IsSocketConfig, IsAudioConfig,
  IsMapConfig, zeros-IsText, no_map-IsMapConfig, parse_map_config-IsMapConfig,
  set_ip_address-IsSocketConfig, set_port-IsSocketConfig, options_loop-Ensures,
}
use vban.Socket.{SocketConfig}
use vban.Stream.{StreamConfig, parse_bit_fmt}
use vban.Stream.Laws.{parse_bit_fmt-le}
use vban.Audio.{AudioConfig}
use vban.Audio.Parse.{audio_parse_map_config}
use vban.Emitter.{EmitterConfig}
use vban.Emitter.Options.{
  EmitterOptions, default_options, with_socket, with_audio, with_stream, set_channels,
  stream_option, emitter_option, check_options, get_options,
}

-- Texts that end inside their arrays, a map of at most 256 channels, each a byte, and a format that
-- `stream_parse_bit_fmt` returns.
abbrev pub IsEmitterConfig : EmitterConfig → Type 0
IsEmitterConfig config =
    IsSocketConfig config.socket
    × IsText 16 config.stream_name
    × IsAudioConfig config.audio
    × IsMapConfig config.map
    × (config.stream.bit_fmt ≤ 8)

abbrev IsStored : EmitterOptions → Type 0
IsStored o = IsEmitterConfig o.config

abbrev Keeps : Option (ℤ × EmitterOptions) → Type 0
Keeps = Ensures (λ r. IsStored (r.1))

module _ (o : EmitterOptions) (valid : IsStored o) where
  set_channels-IsStored : (optarg : Option (List ℕ)) → Keeps (set_channels o optarg)
  unfolding set_channels
  set_channels-IsStored optarg =
      Ensures->>= (λ r. Ensures IsMapConfig (r.1)) (λ r. IsStored (r.1))
        (audio_parse_map_config (some o.config.map) optarg) _
        (parse_map_config-IsMapConfig o.config.map optarg valid.3)
        (λ r stored.
          Ensures->>= IsMapConfig (λ s. IsStored (s.1)) (r.1) _ stored
            (λ map t. (valid.0, valid.1, valid.2, t, valid.4)))

  with_socket-IsStored :
      (socket : SocketConfig) → IsSocketConfig socket → Keeps (with_socket o socket)
  with_socket-IsStored socket t = (t, valid.1, valid.2, valid.3, valid.4)

  with_audio-IsStored : (audio : AudioConfig) → IsAudioConfig audio → Keeps (with_audio o audio)
  with_audio-IsStored audio t = (valid.0, valid.1, t, valid.3, valid.4)

  with_stream-IsStored : (stream : StreamConfig) → stream.bit_fmt ≤ 8 → Keeps (with_stream o stream)
  with_stream-IsStored stream h = (valid.0, valid.1, valid.2, valid.3, h)

  stream_option-IsStored :
      (c : ℕ) (optarg : Option (List ℕ)) (other : Option (ℤ × EmitterOptions))
      → Keeps other
      → Keeps (stream_option c optarg o other)
  unfolding stream_option
  stream_option-IsStored c optarg other h =
      let P = λ (r : ℤ × EmitterOptions). IsStored (r.1) in
      let any = λ (n : ℤ). Unit {0} in
      Ensures-case any P (c == b'r') (int_arg optarg) _ _ (Ensures-any (int_arg optarg))
        (λ n _. with_stream-IsStored (record (o.config.stream) { sample_rate = as_uint n }) valid.4)
        (Ensures-case any P (c == b'n') (int_arg optarg) _ _ (Ensures-any (int_arg optarg))
          (λ n _.
            with_stream-IsStored (record (o.config.stream) { nb_channels = as_uint n }) valid.4)
          (Ensures-case (λ s. Unit {0}) P (c == b'f') optarg _ _ (Ensures-any optarg)
            (λ s _.
              with_stream-IsStored (record (o.config.stream) { bit_fmt = parse_bit_fmt s })
                (parse_bit_fmt-le s))
            (Ensures-if P (c == b'c') _ _ (set_channels-IsStored optarg) (
              Ensures-case any P (c == b'x') (int_arg optarg) _ _ (Ensures-any (int_arg optarg))
                (λ n _.
                  with_audio-IsStored (record (o.config.audio) { buffer_size = as_size n }) valid.2)
                h))))

  emitter_option-IsStored :
      (c : ℕ) (optarg : Option (List ℕ)) → ArgIsBytes optarg → Keeps (emitter_option c optarg o)
  unfolding emitter_option
  emitter_option-IsStored c optarg arg =
      let P = λ (r : ℤ × EmitterOptions). IsStored (r.1) in
      Ensures-case IsSocketConfig P (c == b'i') (set_ip_address o.config.socket optarg) _ _
        (set_ip_address-IsSocketConfig o.config.socket optarg arg valid.0) with_socket-IsStored
        (Ensures-case IsSocketConfig P (c == b'p') (set_port o.config.socket optarg) _ _
          (set_port-IsSocketConfig o.config.socket optarg valid.0) with_socket-IsStored
          (Ensures-case (IsText 16) P (c == b's') (copy_arg o.config.stream_name 16 optarg) _ _
            (copy_arg-IsText o.config.stream_name 16 optarg (omega arith) arg valid.1)
            (λ name t. (valid.0, t, valid.2, valid.3, valid.4))
            (Ensures-case (IsText 32) P (c == b'b') (copy_arg o.config.audio.backend_name 32 optarg)
              _ _
              (copy_arg-IsText o.config.audio.backend_name 32 optarg (omega arith) arg valid.2.0)
              (λ name t.
                with_audio-IsStored (record (o.config.audio) { backend_name = name })
                  (t, valid.2.1))
              (Ensures-case (IsText 64) P (c == b'd')
                (copy_arg o.config.audio.device_name 64 optarg) _ _
                (copy_arg-IsText o.config.audio.device_name 64 optarg (omega arith) arg valid.2.1)
                (λ name t.
                  with_audio-IsStored (record (o.config.audio) { device_name = name })
                    (valid.2.0, t))
                (stream_option-IsStored c optarg _ (
                  Ensures-case (λ n. Unit {0}) P (c == b'l') (int_arg optarg) _ _
                    (Ensures-any (int_arg optarg)) (λ n _. valid) valid))))))

default_options-IsStored : IsStored default_options
default_options-IsStored = (
  zeros-IsText 32,
  zeros-IsText 16,
  (zeros-IsText 32, zeros-IsText 64),
  no_map-IsMapConfig,
  omega arith,
)

-- What the emitter is started with.
pub record IsEmitterReady (config : EmitterConfig) : Type 0 where
  pub valid : IsEmitterConfig config
  pub address : 0 < length (text_of config.socket.ip_address)
  pub name : 0 < length (text_of config.stream_name)
  pub port : config.socket.port ≢ pos 0
  pub other_backend : text_of (take 32 config.audio.backend_name) ≢ codes "jack"

check_options-IsEmitterReady :
    (ret : ℤ) (o : EmitterOptions) {config : EmitterConfig}
    → IsStored o
    → check_options ret o.config ≡ (pos 0, config)
    → IsEmitterReady config
unfolding check_options
check_options-IsEmitterReady (pos zero) o {config} stored h =
    elim (Bool-cases (is_missing o.config.socket o.config.stream_name)) [
      | inl missing ↦
          let codes_eq : ◌≡◌ {A = ℤ × EmitterConfig} (pos 1, o.config) (pos 0, config) =
            rw missing at h in
          absurd (ground arith)
      | inr given ↦ elim (Bool-cases (strncmp_eq 32 o.config.audio.backend_name (codes "jack"))) [
        | inl jack ↦
            let codes_eq : ◌≡◌ {A = ℤ × EmitterConfig} (pos 1, o.config) (pos 0, config) =
              rw (given, jack) at h in
            absurd (ground arith)
        | inr other ↦
            let same : ◌≡◌ {A = ℤ × EmitterConfig} (pos 0, o.config) (pos 0, config) =
              rw (given, other) at h in
            let found : o.config ≡ config = ap (λ r. r.1) same in
            let (address, name, port) = is_missing_lem o.config.socket o.config.stream_name given in
            rw (← found) (record {
              valid = stored;
              address = address;
              name = name;
              port = port;
              other_backend = λ e.
                  let equal = (strncmp_eq_iff 32 o.config.audio.backend_name (codes "jack")).1 e in
                  cc;
            })
      ]
    ]
check_options-IsEmitterReady (pos (suc n)) o stored h = absurd (ground arith)
check_options-IsEmitterReady (negsuc n) o stored h = absurd (ground arith)

-- When the arguments of the options are bytes and `get_options` returns 0, the address, the stream's
-- name, the backend and the device are texts that end inside their arrays, the first two are not empty,
-- the port is not 0, the map has at most 256 channels, each a byte, the format is at most 8, where 8
-- stands for a name that is not in the table, and the name of the backend is not "jack".
pub get_options-IsEmitterReady :
    (items : List (ℕ × Option (List ℕ))) {config : EmitterConfig}
    → ItemsAreBytes items
    → get_options items ≡ some (pos 0, config)
    → IsEmitterReady config
unfolding get_options
get_options-IsEmitterReady items bytes h =
    let (r, loops, checks) = >>=-some (options_loop emitter_option items default_options) _ h in
    let stored =
      Ensures-some (λ r. IsStored (r.1))
        (options_loop-Ensures IsStored emitter_option
          (λ c optarg o arg valid. emitter_option-IsStored o valid c optarg arg) items
          default_options bytes default_options-IsStored)
        loops in
    check_options-IsEmitterReady (r.0) (r.1) stored (some_inj checks)
