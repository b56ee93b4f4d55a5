-- ===== src/Emitter/Capture.antt =====
-- The emitter under a channel map that takes some of the device's channels: its first read.
use vban.Prelude.{
  ℕ, suc, ◌*◌, ◌%◌, ◌^◌, ◌≤◌, ◌<◌, ◌≡◌, refl, arith, List, Option, none, some, false, ◌==◌, length,
  drop, get_elem?, replicate,
}
use vban.Prelude.Int.{pos}
use vban.Vban.{bit_resolution_size}
use vban.Packet.{packet_init_header, packet_get_max_payload_size}
use vban.Socket.{Net, Socket}
use vban.Audio.{Audio, audio_get_stream_config}
use vban.Audio.Capture.{captures_outside}
use vban.Audio.Interface.{Backend, audio_in}
use vban.Emitter.{EmitterConfig, emitter_step, emitter_loop, run_emitter, prepare_emitter}

stream_mapped :
    {Device : Type 0} (a : Audio Device)
    → a.config.direction ≡ audio_in
    → 0 < a.map.nb_channels
    → (audio_get_stream_config (some a)).1
      ≡ some (record (a.stream) { nb_channels = a.map.nb_channels })
unfolding audio_get_stream_config
stream_mapped a input used =
    let unset : (a.map.nb_channels == 0) ≡ false = ground arith in rw (input, unset)

module _ {Device World : Type 0} (b : Backend Device) (net : Net World) where
  -- An emitter whose audio object has a channel map, over a backend that reads as many whole frames as it
  -- is asked for. The map's frames fill the payload of a packet; the device's frames, with a sample
  -- for each of its channels, are more than the 1436 bytes of the object's buffer. Then the first round
  -- writes past that buffer.
  pub prepare_emitter_overruns :
      (config : EmitterConfig) (socket : Option Socket) (a : Audio Device) (m bytes : List ℕ)
      (d' : Device) (rounds frames ss : ℕ) (w : World)
      → a.config.direction ≡ audio_in
      → 0 < a.map.nb_channels
      → a.map.nb_channels ≤ length a.map.channels
      → packet_init_header
          (some (replicate 1464 0))
          (some (record (a.stream) { nb_channels = a.map.nb_channels }))
          config.stream_name
        ≡ (pos 0, some m)
      → packet_get_max_payload_size (some m) ≡ some (pos (frames * (ss * a.map.nb_channels)))
      → frames * (ss * a.map.nb_channels) ≤ 1436
      → get_elem? bit_resolution_size a.stream.bit_fmt ≡ some ss
      → 0 < ss
      → 0 < a.stream.nb_channels
      → a.stream.nb_channels ≤ 256
      → length a.buffer ≡ 1436
      → b.read_data a.device (frames * (ss * a.stream.nb_channels))
        ≡ (pos (frames * (ss * a.stream.nb_channels)), bytes, d')
      → length bytes ≡ frames * (ss * a.stream.nb_channels)
      → 1436 < frames * (ss * a.stream.nb_channels)
      → prepare_emitter b net (suc rounds) config socket (some a) w ≡ none
  unfolding prepare_emitter run_emitter emitter_loop emitter_step
  prepare_emitter_overruns config socket a m bytes d' rounds frames ss w input used array writes
        sizes asked sized some_byte some_channel channels room got full over =
      let narrow : frames * (ss * a.map.nb_channels) % 2 ^ 64 ≡ frames * (ss * a.map.nb_channels) =
        omega (arith, asked) in
      let faults =
        captures_outside b a (drop 28 m) bytes d' frames ss sized some_byte some_channel channels
          used array room asked got full over in
      rw (stream_mapped a input used, writes, sizes, narrow, faults) refl
