-- ===== src/Receptor.antt =====
-- src/receptor/main.c from the parsed options on: packets come from the socket, and those of the
-- stream go to the audio object. A fault anywhere ends a run with `none`.
pub mod Laws
pub mod Options
pub mod Loop
pub mod Mapped
pub mod OneChannel
mod Tests
use vban.Prelude.{
  ℕ, zero, suc, ◌-◌, ◌*◌, ◌%◌, ◌^◌, ◌<◌, ◌≡◌, Bool, List, Option, none, some, true, false, drop,
  replicate, ltb, ◌==◌, not, if◌then◌else◌, ◌>>=◌, Progress, still_running, exited,
}
use vban.Prelude.Int.{ℤ, pos, negsuc, is_negative, is_zero, as_size}
use vban.Vban.{protocol_max_size, header_size}
use vban.Stream.{StreamConfig}
use vban.Packet.{packet_check, packet_get_stream_config, no_config}
use vban.Socket.{Net, Socket, SocketConfig, socket_init, socket_read, socket_release}
use vban.Audio.{
  Audio, AudioConfig, audio_init, audio_release, audio_set_map_config, audio_set_stream_config,
  audio_write,
}
use vban.Audio.Interface.{Backend, BackendItem}
use vban.Audio.Channels.{MapConfig}

-- The `switch` of `computeSize`, on an `unsigned char`.
abbrev pub samples_of : ℕ → ℕ
samples_of quality =
    if quality == 0
    then 512
    else if quality == 1
    then 1024
    else if quality == 2
    then 2048
    else if quality == 3
    then 4096
    else if quality == 4
    then 8192
    else 0

-- `computeSize`
pub compute_size : ℕ → ℕ
compute_size quality =
    let nnn = samples_of (quality % 256) * 3 in
    if ltb nnn protocol_max_size then protocol_max_size else nnn

-- `struct config_t`
pub record ReceptorConfig : Type 0 where
  pub socket : SocketConfig
  pub audio : AudioConfig
  pub map : MapConfig
  pub stream_name : List ℕ

-- `struct main_t`
pub record Receptor (Device : Type 0) : Type 0 where
  pub socket : Option Socket
  pub audio : Option (Audio Device)
  pub buffer : List ℕ

-- The code behind `audio_write`, which returned `ret` for `size` bytes: whether the loop goes on.
pub goes_on : ℤ → ℕ → Bool
goes_on ret size =
    if not (as_size ret == size) then true else if is_negative ret then false else true

module _ {Device : Type 0} (b : Backend Device) where
  -- The packet in the buffer is played: the device is set to its parameters, and its payload written.
  unfoldable pub play : Receptor Device → StreamConfig → ℕ → Option (Bool × Receptor Device)
  play r config size =
      let (ret, audio) = audio_set_stream_config b r.audio (some config) in
      if is_negative ret
      then some (false, record r { audio = audio })
      else (audio_write b audio (some (drop header_size r.buffer)) (size - header_size)
          >>= λ (code, audio').
              some (goes_on code (size - header_size), record r { audio = audio' }))

  -- The body of the loop behind `socket_read`, for a packet of `size` bytes in the buffer.
  unfoldable pub handle_packet : List ℕ → Receptor Device → ℕ → Option (Bool × Receptor Device)
  handle_packet name r size =
      if is_zero (packet_check (some name) (some r.buffer) size)
      then (packet_get_stream_config (some r.buffer) (some no_config) >>= λ (_, config).
          play r config size)
      else some (true, r)

  -- The body of the loop for what `socket_read` returned.
  unfoldable pub on_read : List ℕ → Receptor Device → ℤ → Option (Bool × Receptor Device)
  on_read name r (negsuc k) = some (false, r)
  on_read name r (pos size) = handle_packet name r size

module _ {Device World : Type 0} (b : Backend Device) (net : Net World) where
  abbrev buffer_of : Option (List ℕ) → List ℕ
  buffer_of none = replicate 0 0
  buffer_of (some m) = m

  -- One round of `while (MainRun)`: whether the loop goes on. `fuel` is that of `socket_read`.
  unfoldable pub receptor_step :
      ℕ → List ℕ → Receptor Device → World → Option (Bool × Receptor Device × World)
  receptor_step fuel name r w = do
    (size, stored, w') ← socket_read net fuel r.socket (some r.buffer) protocol_max_size w
    (continues, r') ← on_read b name (record r { buffer = buffer_of stored }) size
    some (continues, r', w')

  -- The loop, followed for a number of rounds. Nothing clears `MainRun`, since `signalHandler` is never
  -- installed: only a round that stops leaves the loop, and after the last round the program still runs.
  unfoldable pub receptor_loop :
      ℕ
      → ℕ
      → List ℕ
      → Receptor Device
      → World
      → Option (Progress (Receptor Device × World) (Receptor Device × World))
  receptor_loop zero fuel name r w = some (still_running (r, w))
  receptor_loop (suc rounds) fuel name r w = receptor_step fuel name r w >>= λ (continues, r', w').
      elim continues [
        | true ↦ receptor_loop rounds fuel name r' w'
        | false ↦ some (exited (r', w'))
      ]

  -- The program: inside its loop, or ended with an exit code, the device as it was left, and the system.
  abbrev pub ReceptorRun : Type 0
  ReceptorRun = Progress (Receptor Device × World) (ℤ × Option Device × World)

  -- The two releases behind the loop.
  abbrev pub release_receptor :
      Progress (Receptor Device × World) (Receptor Device × World) → ReceptorRun
  release_receptor (still_running state) = still_running state
  release_receptor (exited (r, w)) =
      exited (pos 0, (audio_release b r.audio).1, (socket_release net r.socket w).1)

  -- The loop and what follows it.
  unfoldable pub run_receptor : ℕ → ℕ → List ℕ → Receptor Device → World → Option ReceptorRun
  run_receptor rounds fuel name r w =
      receptor_loop rounds fuel name r w >>= λ p. some (release_receptor p)

  -- `main` behind `get_options`. The two Booleans say whether `calloc` gives memory for the socket and
  -- for the audio object. A call that fails
  -- ends the program at once, and nothing is released.
  pub receptor_main :
      Bool
      → Bool
      → ReceptorConfig
      → BackendItem Device
      → List (BackendItem Device)
      → ℕ
      → ℕ
      → World
      → Option ReceptorRun
  receptor_main m m' config first items rounds fuel w =
      socket_init net m (some config.socket) w >>= λ (ret, socket, w').
      if not (is_zero ret)
      then some (exited (ret, none, w'))
      else let (ret', audio) = audio_init m' (some config.audio) first items in
        if not (is_zero ret')
        then some (exited (ret', none, w'))
        else let (ret'', audio') = audio_set_map_config audio (some config.map) in
          if not (is_zero ret'')
          then some (exited (ret'', none, w'))
          else run_receptor rounds fuel config.stream_name
              (record { socket = socket; audio = audio'; buffer = replicate protocol_max_size 0 })
              w'
