-- ===== src/Receptor/Mapped.antt =====
-- The receptor under a channel map: which packets make `audio_write` run past the object's buffer.
use vban.Prelude.{
  ◌∙◌, Bool-cases, inl, inr, ltb, ltb_iff, ◌%◌, ◌/◌, ◌^◌, ◌==◌, true, ℕ, ◌+◌, ◌-◌, ◌*◌, ◌≤◌, ◌<◌,
  ◌≡◌, ◌↔◌, refl, ◌>>=◌, ap, sym, arith, List, Option, none, some, false, length, length-drop, drop,
  get_elem?,
}
use vban.Prelude.Int.{ℤ, pos, is_negative, IsInt, as_int, as_uint}
use vban.Prelude.Memory.{slice}
use vban.Vban.{bit_resolution_size}
use vban.Audio.Channels.{MapConfig, map_channels}
use vban.Audio.Writing.{audio_write_mapped}
use vban.Stream.{StreamConfig}
use vban.Packet.{packet_check, packet_get_stream_config, no_config}
use vban.Packet.Check.{sample_size_of, sample_size_of-pos_iff}
use vban.Packet.Prepared.{frame_bytes}
use vban.Socket.{Socket}
use vban.Audio.{Audio, audio_set_stream_config, audio_write, map_reverse_result}
use vban.Audio.Interface.{Backend}
use vban.Audio.Overrun.{audio_write-none_iff}
use vban.Audio.Streams.{set_stream_done}
use vban.Receptor.{goes_on, play, handle_packet}
use vban.Receptor.Laws.{sizes_found, goes_on_always}

result-none_iff :
    {A B : Type 0} (o : Option A) (f : A → B) → ((o >>= λ a. some (f a)) ≡ none) ↔ (o ≡ none)
result-none_iff none f = (λ e. refl, λ e. refl)
result-none_iff (some a) f = (λ e. absurd (cc), λ e. absurd (cc))

as_int-IsInt : (n : ℕ) → IsInt (as_int n)
as_int-IsInt n = elim (Bool-cases (ltb (n % 2 ^ 32) (2 ^ 31))) [
  | inl low ↦ rw low (omega (arith, (ltb_iff (n % 2 ^ 32) (2 ^ 31)).0 low))
  | inr high ↦
      let large : 2 ^ 31 ≤ n % 2 ^ 32 = ground (arith, high) in rw high (omega (arith, large))
]

map_reverse_result-IsInt :
    (s : StreamConfig) (map : MapConfig) (ret : ℤ)
    → 0 < map.nb_channels
    → IsInt (map_reverse_result s map ret)
unfolding map_reverse_result
map_reverse_result-IsInt s map ret used =
    let unset : (map.nb_channels == 0) ≡ false = ground arith in
    rw unset (as_int-IsInt (as_uint ret * s.nb_channels % 2 ^ 32 / map.nb_channels))

module _ {Device : Type 0} (b : Backend Device) where
  -- A channel map is set whose last channel is one of the stream's, and the device takes the parameters
  -- of a packet that is accepted. Then handling the packet writes past the audio object's buffer of 1436
  -- bytes for exactly the packets whose frames, each with a sample for every channel of the map, are
  -- more than 1436 bytes.
  pub handle_packet-none_iff :
      (name m : List ℕ) (s : Option Socket) (a a' : Audio Device) (c : StreamConfig) (code : ℤ)
      (size frames last source : ℕ)
      → packet_check (some name) (some m) size ≡ pos 0
      → packet_get_stream_config (some m) (some no_config) ≡ some (pos 0, c)
      → size ≡ 28 + frames * frame_bytes c
      → 1 ≤ frames
      → size ≤ length m
      → size ≤ 1464
      → c.bit_fmt < 6
      → c.nb_channels ≤ 256
      → audio_set_stream_config b (some a) (some c) ≡ (code, some a')
      → is_negative code ≡ false
      → length a.buffer ≡ 1436
      → last + 1 ≡ a.map.nb_channels
      → a.map.nb_channels ≤ length a.map.channels
      → get_elem? a.map.channels last ≡ some source
      → source < c.nb_channels
      → (handle_packet b name (record { socket = s; audio = some a; buffer = m }) size ≡ none)
        ↔ (1436 < frames * (sample_size_of c.bit_fmt * a.map.nb_channels))
  unfolding handle_packet play
  handle_packet-none_iff name m s a a' c code size frames last source ok gets whole some_frame fits
        small format channels sets good room used array at_last present =
      let (stream, same_map, same_buffer) =
        set_stream_done b a a' c code (omega (arith, present)) sets good in
      let ss = sample_size_of c.bit_fmt in
      let payload : size - 28 ≡ frames * (ss * a'.stream.nb_channels) =
        rw stream (omega (arith, whole)) in
      let writes =
        audio_write-none_iff b a' (drop 28 m) frames ss last source
          (rw stream (sizes_found c.bit_fmt format)) ((sample_size_of-pos_iff c.bit_fmt).1 format)
          (rw same_map used) (rw same_map array) (rw same_map at_last) (rw stream present)
          (rw stream channels) (rw same_buffer room) some_frame
          (omega (arith, length-drop 28 m, payload)) (omega (arith, payload)) in
      let played = audio_write b (some a') (some (drop 28 m)) (size - 28) in
      let wide : frames * (ss * a.map.nb_channels) ≡ frames * (ss * a'.map.nb_channels) =
        ap (λ map. frames * (ss * map.nb_channels)) (sym same_map) in
      let faults : (played ≡ none) ↔ (1436 < frames * (ss * a.map.nb_channels)) =
        rw (payload, wide) writes in
      let runs = result-none_iff played (λ (ret, audio).
        (goes_on ret (size - 28), record { socket = s; audio = audio; buffer = m })) in
      rw (ok, gets, sets, good) (λ e. faults.0 (runs.0 e), λ over. runs.1 (faults.1 over))

  -- The audio object `a'` has the stream's parameters: the frames are written as the map changes them.
  play_maps :
      (m : List ℕ) (s : Option Socket) (a a' : Audio Device) (c : StreamConfig) (code : ℤ)
      (size frames ss : ℕ)
      → audio_set_stream_config b (some a) (some c) ≡ (code, some a')
      → is_negative code ≡ false
      → get_elem? bit_resolution_size a'.stream.bit_fmt ≡ some ss
      → 0 < ss
      → size ≡ 28 + frames * (ss * a'.stream.nb_channels)
      → size ≤ length m
      → size ≤ 1464
      → 1 ≤ a'.stream.nb_channels
      → a'.stream.nb_channels ≤ 256
      → length a'.buffer ≡ 1436
      → 1 ≤ a'.map.nb_channels
      → a'.map.nb_channels ≤ length a'.map.channels
      → frames * (ss * a'.map.nb_channels) ≤ 1436
      → (out : List ℕ) × (map_channels ss a'.stream.nb_channels
            (size - 28)
            a'.map
            (drop 28 m)
            a'.buffer
          ≡ some out)
        × (let mapped = slice out 0 (frames * (ss * a'.map.nb_channels)) in
            play b (record { socket = s; audio = some a; buffer = m }) c size
            ≡ some (
              true,
              record {
                socket = s;
                audio =
                    some (record a' { buffer = out; device = (b.write_data a'.device mapped).1 });
                buffer = m;
              },
            ))
  unfolding play
  play_maps m s a a' c code size frames ss sets good sized some_byte whole fits small some_channel
        channels room used array inside =
      let payload : size - 28 ≡ frames * (ss * a'.stream.nb_channels) = omega (arith, whole) in
      let (out, maps, writes, _) =
        audio_write_mapped b a' (drop 28 m) frames ss sized some_byte some_channel channels used
          array room (omega (arith, length-drop 28 m, payload)) (omega (arith, payload)) inside in
      let mapped = slice out 0 (frames * (ss * a'.map.nb_channels)) in
      let ret = map_reverse_result a'.stream a'.map (b.write_data a'.device mapped).0 in
      let goes : goes_on ret (size - 28) ≡ true =
        goes_on_always ret (size - 28)
          (map_reverse_result-IsInt a'.stream a'.map (b.write_data a'.device mapped).0 used)
          (omega (arith, small)) in
      let writes' : audio_write b (some a') (some (drop 28 m)) (size - 28)
          ≡ some
              (ret, some (record a' { buffer = out; device = (b.write_data a'.device mapped).1 })) =
        ap (λ n. audio_write b (some a') (some (drop 28 m)) n) payload ∙ writes in
      (
        out,
        ap (λ n. map_channels ss a'.stream.nb_channels n a'.map (drop 28 m) a'.buffer) payload
            ∙ maps,
        rw (sets, good, writes', goes),
      )

  -- A channel map is set, and the device takes the parameters of a packet that is accepted, and whose
  -- frames fit the audio object's buffer under the map. Then handling the packet does not fault, the
  -- device is given the frames as the map changes them, whatever it returns the loop goes on, and the
  -- audio object keeps its map.
  pub handle_packet_maps :
      (name m : List ℕ) (s : Option Socket) (a a' : Audio Device) (c : StreamConfig) (code : ℤ)
      (size frames : ℕ)
      → packet_check (some name) (some m) size ≡ pos 0
      → packet_get_stream_config (some m) (some no_config) ≡ some (pos 0, c)
      → size ≡ 28 + frames * frame_bytes c
      → size ≤ length m
      → size ≤ 1464
      → c.bit_fmt < 6
      → 1 ≤ c.nb_channels
      → c.nb_channels ≤ 256
      → audio_set_stream_config b (some a) (some c) ≡ (code, some a')
      → is_negative code ≡ false
      → length a.buffer ≡ 1436
      → 1 ≤ a.map.nb_channels
      → a.map.nb_channels ≤ length a.map.channels
      → frames * (sample_size_of c.bit_fmt * a.map.nb_channels) ≤ 1436
      → (a'.stream ≡ c)
        × (a'.map ≡ a.map)
        × (a'.buffer ≡ a.buffer)
        × ((out : List ℕ) × (map_channels
                (sample_size_of c.bit_fmt)
                a'.stream.nb_channels
                (size - 28)
                a'.map
                (drop 28 m)
                a'.buffer
              ≡ some out)
            × (let mapped =
                  slice out 0 (frames * (sample_size_of c.bit_fmt * a'.map.nb_channels)) in
                handle_packet b name (record { socket = s; audio = some a; buffer = m }) size
                ≡ some (
                  true,
                  record {
                    socket = s;
                    audio =
                        some
                          (record a' { buffer = out; device = (b.write_data a'.device mapped).1 });
                    buffer = m;
                  },
                )))
  unfolding handle_packet
  handle_packet_maps name m s a a' c code size frames ok gets whole fits small format some_channel
        channels sets good room used array inside =
      let (stream, same_map, same_buffer) = set_stream_done b a a' c code some_channel sets good in
      let (out, maps, plays) =
        play_maps m s a a' c code size frames (sample_size_of c.bit_fmt) sets good
          (rw stream (sizes_found c.bit_fmt format)) ((sample_size_of-pos_iff c.bit_fmt).1 format)
          (rw stream (omega (arith, whole))) fits small (rw stream some_channel)
          (rw stream channels) (rw same_buffer room) (rw same_map used) (rw same_map array)
          (rw same_map inside) in
      (stream, same_map, same_buffer, (out, maps, rw (ok, gets) plays))
