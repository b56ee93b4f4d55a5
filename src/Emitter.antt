-- ===== src/Emitter.antt =====
-- src/emitter/main.c from the parsed options on: audio is read into the payload of a packet, whose
-- header was prepared before the loop, and the packet is sent. A fault ends a run with `none`.
pub mod Laws
pub mod Options
pub mod Loop
pub mod Capture
mod Tests
use vban.Prelude.{
  ℕ, zero, suc, ◌+◌, ◌-◌, Bool, List, Option, none, some, true, false, take, drop, replicate, ◌++◌,
  not, if◌then◌else◌, ◌>>=◌, Progress, still_running, exited,
}
use vban.Prelude.Int.{ℤ, pos, negsuc, is_negative, is_zero, as_size}
use vban.Prelude.Memory.{read_block}
use vban.Vban.{protocol_max_size, header_size}
use vban.Stream.{StreamConfig}
use vban.Packet.{
  packet_check, packet_init_header, packet_get_max_payload_size, packet_set_new_content,
}
use vban.Socket.{Net, Socket, SocketConfig, socket_init, socket_write, socket_release}
use vban.Audio.{
  Audio, AudioConfig, audio_init, audio_release, audio_set_map_config, audio_set_stream_config,
  audio_get_stream_config, audio_read,
}
use vban.Audio.Interface.{Backend, BackendItem}
use vban.Audio.Channels.{MapConfig}

-- `struct config_t`
pub record EmitterConfig : Type 0 where
  pub socket : SocketConfig
  pub audio : AudioConfig
  pub stream : StreamConfig
  pub map : MapConfig
  pub stream_name : List ℕ

-- `struct main_t`
pub record Emitter (Device : Type 0) : Type 0 where
  pub socket : Option Socket
  pub audio : Option (Audio Device)
  pub buffer : List ℕ

-- The buffer with `payload` behind its header.
abbrev pub with_payload : List ℕ → Option (List ℕ) → List ℕ
with_payload m none = m
with_payload m (some payload) = take header_size m ++ payload

module _ {Device World : Type 0} (net : Net World) where
  -- The packet of `size` payload bytes in the buffer is completed, checked and sent: whether the loop
  -- goes on, and the value that `ret` has then.
  unfoldable pub send_packet :
      List ℕ → Emitter Device → ℕ → World → Option (Bool × ℤ × Emitter Device × World)
  send_packet name e size w = packet_set_new_content (some e.buffer) size >>= λ (_, filled).
      filled >>= λ packet.
      let checked = packet_check (some name) (some packet) (size + header_size) in
      let e' = record e { buffer = packet } in
      if not (is_zero checked)
      then some (false, checked, e', w)
      else (read_block packet 0 (size + header_size) >>= λ bytes.
          let (ret, w') = socket_write net e.socket (some bytes) w in
          some (not (is_negative ret), ret, e', w'))

  -- The body of the loop for what `audio_read` returned; `ret` is the value from the round before.
  unfoldable pub on_audio :
      List ℕ → ℤ → Emitter Device → ℤ → World → Option (Bool × ℤ × Emitter Device × World)
  on_audio name ret e (negsuc k) w = some (false, ret, e, w)
  on_audio name ret e (pos size) w = send_packet name e size w

module _ {Device World : Type 0} (b : Backend Device) (net : Net World) where
  -- One round of `while (MainRun)`.
  unfoldable pub emitter_step :
      List ℕ → ℕ → ℤ → Emitter Device → World → Option (Bool × ℤ × Emitter Device × World)
  emitter_step name max_size ret e w =
      audio_read b e.audio (some (drop header_size e.buffer)) max_size >>= λ (size, audio, payload).
      on_audio net name ret (record e { audio = audio; buffer = with_payload e.buffer payload })
        size w

  -- The loop, followed for a number of rounds. Nothing clears `MainRun`, since `signalHandler` is never
  -- installed: only a round that stops leaves the loop, and after the last round the program still runs.
  unfoldable pub emitter_loop :
      ℕ
      → List ℕ
      → ℕ
      → ℤ
      → Emitter Device
      → World
      → Option (Progress (ℤ × Emitter Device × World) (ℤ × Emitter Device × World))
  emitter_loop zero name max_size ret e w = some (still_running (ret, e, w))
  emitter_loop (suc rounds) name max_size ret e w =
      emitter_step name max_size ret e w >>= λ (continues, ret', e', w'). elim continues [
        | true ↦ emitter_loop rounds name max_size ret' e' w'
        | false ↦ some (exited (ret', e', w'))
      ]

  -- The program: inside its loop, with the value of `ret`, or ended with an exit code, the device as it
  -- was left, and the system.
  abbrev pub EmitterRun : Type 0
  EmitterRun = Progress (ℤ × Emitter Device × World) (ℤ × Option Device × World)

  -- The two releases behind the loop.
  abbrev pub release_emitter :
      Progress (ℤ × Emitter Device × World) (ℤ × Emitter Device × World) → EmitterRun
  release_emitter (still_running state) = still_running state
  release_emitter (exited (ret, e, w)) =
      exited (ret, (audio_release b e.audio).1, (socket_release net e.socket w).1)

  -- The loop and what follows it.
  unfoldable pub run_emitter : ℕ → List ℕ → ℕ → Emitter Device → World → Option EmitterRun
  run_emitter rounds name max_size e w =
      emitter_loop rounds name max_size (pos 0) e w >>= λ p. some (release_emitter p)

  -- `main` once the audio object is set: the header is written, and the size of a read is fixed.
  unfoldable pub prepare_emitter :
      ℕ → EmitterConfig → Option Socket → Option (Audio Device) → World → Option EmitterRun
  prepare_emitter rounds config socket audio w = do
    stream ← (audio_get_stream_config audio).1
    m ←
        (packet_init_header (some (replicate protocol_max_size 0)) (some stream)
          config.stream_name).1
    max_size ← packet_get_max_payload_size (some m)
    run_emitter rounds config.stream_name (as_size max_size)
        (record { socket = socket; audio = audio; buffer = m }) w

  -- `main` behind `get_options`, with the two answers of `calloc`. A call that fails ends the program
  -- at once, and nothing is released.
  pub emitter_main :
      Bool
      → Bool
      → EmitterConfig
      → BackendItem Device
      → List (BackendItem Device)
      → ℕ
      → World
      → Option EmitterRun
  emitter_main m m' config first items rounds w =
      socket_init net m (some config.socket) w >>= λ (ret, socket, w').
      if not (is_zero ret)
      then some (exited (ret, none, w'))
      else let (ret', audio) = audio_init m' (some config.audio) first items in
        if not (is_zero ret')
        then some (exited (ret', none, w'))
        else let (ret'', audio') = audio_set_map_config audio (some config.map) in
          if not (is_zero ret'')
          then some (exited (ret'', none, w'))
          else let (code, audio'') = audio_set_stream_config b audio' (some config.stream) in
            if not (is_zero code)
            then some (exited (code, none, w'))
            else prepare_emitter rounds config socket audio'' w'
