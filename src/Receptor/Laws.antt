-- ===== src/Receptor/Laws.antt =====
-- The receptor: what becomes of a packet, and when its loop stops.
use vban.Prelude.{
  ℕ, zero, suc, ◌-◌, ◌^◌, ◌≤◌, ◌<◌, ◌≡◌, ◌≢◌, refl, ap, arith, Bool, true, false, inl, inr,
  Bool-cases, List, Option, some, length, length-drop, get_elem?, drop,
}
use vban.Prelude.Int.{ℤ, pos, negsuc, is_negative, is_zero, IsInt}
use vban.Prelude.Memory.{IsBytes, slice}
use vban.Vban.{bit_resolution_size}
use vban.Stream.{StreamConfig}
use vban.Socket.{Socket}
use vban.Packet.{packet_check, packet_get_stream_config, no_config}
use vban.Packet.Check.{sample_size_of}
use vban.Packet.Config.{IsCarried, accepted_config}
use vban.Audio.{Audio, audio_set_stream_config, get_device_config}
use vban.Audio.Interface.{Backend, BackendLaws, Direction}
use vban.Audio.Streams.{IsSettled, set_stream-IsConfigured}
use vban.Audio.Writing.{audio_write_plain}
use vban.Receptor.{Receptor, goes_on, play, handle_packet}

-- Whatever `int` it is that `audio_write` returned for a payload below 2 ^ 31 bytes, a negative one
-- included, the loop of the receptor goes on.
pub goes_on_always : (ret : ℤ) (size : ℕ) → IsInt ret → size < 2 ^ 31 → goes_on ret size ≡ true
unfolding goes_on
goes_on_always (pos n) size i h = ground arith
goes_on_always (negsuc n) size i h = ground arith

pub is_zero-eq : (ret : ℤ) → is_zero ret ≡ true → ret ≡ pos 0
is_zero-eq (pos zero) h = refl
is_zero-eq (pos (suc n)) h = absurd (ground arith)
is_zero-eq (negsuc n) h = absurd (ground arith)

pub carried_some : (c : StreamConfig) → IsCarried c → c ≢ no_config
carried_some c v e =
    let none_counted : c.nb_channels ≡ 0 = ap (λ s. s.nb_channels) e in
    omega (arith, v.some_channel)

pub sizes_found : (f : ℕ) → f < 6 → get_elem? bit_resolution_size f ≡ some (sample_size_of f)
sizes_found zero h = refl
sizes_found (suc zero) h = refl
sizes_found (suc (suc zero)) h = refl
sizes_found (suc (suc (suc zero))) h = refl
sizes_found (suc (suc (suc (suc zero)))) h = refl
sizes_found (suc (suc (suc (suc (suc zero))))) h = refl
sizes_found (suc (suc (suc (suc (suc (suc f)))))) h = absurd (omega arith)

-- A packet that is not accepted.
pub rejected :
    (name m : List ℕ) (size : ℕ)
    → packet_check (some name) (some m) size ≢ pos 0
    → is_zero (packet_check (some name) (some m) size) ≡ false
rejected name m size other = elim (Bool-cases (is_zero (packet_check (some name) (some m) size))) [
  | inl zero_code ↦ absurd (other (is_zero-eq (packet_check (some name) (some m) size) zero_code))
  | inr nonzero ↦ nonzero
]

-- Where the device takes the parameters, and no map is set, it is given the payload, and the loop goes on.
pub play_writes :
    {Device : Type 0} (b : Backend Device) (m : List ℕ) (s : Option Socket) (a a' : Audio Device)
    (c : StreamConfig) (ret : ℤ) (size ss : ℕ)
    → BackendLaws b
    → audio_set_stream_config b (some a) (some c) ≡ (ret, some a')
    → is_negative ret ≡ false
    → get_elem? bit_resolution_size a'.stream.bit_fmt ≡ some ss
    → a'.map.nb_channels ≡ 0
    → size ≤ length m
    → size < 2 ^ 31
    → play b (record { socket = s; audio = some a; buffer = m }) c size
      ≡ some (
        true,
        record {
          socket = s;
          audio = some (record a' { device = (b.write_data a'.device (slice m 28 (size - 28))).1 });
          buffer = m;
        },
      )
unfolding play
play_writes b m s a a' c ret size ss laws sets good sized no_map fits small =
    let payload = slice m 28 (size - 28) in
    let writes =
      audio_write_plain b a' (drop 28 m) (size - 28) ss laws sized no_map
        (omega (arith, length-drop 28 m)) in
    let goes =
      goes_on_always (b.write_data a'.device payload).0 (size - 28)
        (laws.write_int a'.device payload) (omega (arith, small)) in
    rw (sets, good, writes, goes)

module _ {Device : Type 0} (b : Backend Device) (Opened : Device → StreamConfig → Type 0)
    (opens : (d : Device) (name : List ℕ) (dir : Direction) (size : ℕ) (c : StreamConfig)
      → is_negative (b.open_device d name dir size c).0 ≡ false
      → Opened (b.open_device d name dir size c).1 c) where
  -- What the receptor does with `size` bytes in its buffer `m`: whether it goes on, and its new state.
  pub data Handled (name m : List ℕ) (s : Option Socket) (a : Audio Device) (size : ℕ)
      : Bool → Receptor Device → Type 0 where
    ignored :
        packet_check (some name) (some m) size ≢ pos 0
        → Handled name m s a size true (record { socket = s; audio = some a; buffer = m })
    stopped :
        {a' : Audio Device} (c : StreamConfig)
        → packet_check (some name) (some m) size ≡ pos 0
        → packet_get_stream_config (some m) (some no_config) ≡ some (pos 0, c)
        → (audio_set_stream_config b (some a) (some c)).1 ≡ some a'
        → is_negative (audio_set_stream_config b (some a) (some c)).0 ≡ true
        → Handled name m s a size false (record { socket = s; audio = some a'; buffer = m })
    played :
        {a' : Audio Device} (c : StreamConfig)
        → packet_check (some name) (some m) size ≡ pos 0
        → packet_get_stream_config (some m) (some no_config) ≡ some (pos 0, c)
        → (audio_set_stream_config b (some a) (some c)).1 ≡ some a'
        → IsCarried c
        → a'.stream ≡ c
        → a'.config ≡ a.config
        → a'.map ≡ a.map
        → Opened a'.device (get_device_config a')
        → Handled name m s a size true (record {
          socket = s;
          audio = some (record a' { device = (b.write_data a'.device (slice m 28 (size - 28))).1 });
          buffer = m;
        })

  -- With no channel map and a buffer that holds the packet, the handling of a packet never faults. A
  -- packet that is not accepted changes nothing. For an accepted one the audio object is set to the
  -- parameters that the packet announces. The loop stops if that fails; otherwise the device is open for
  -- them, it is given exactly the payload, the object's configuration and map stay, and the loop goes on.
  pub handle_packet-Handled :
      (name m : List ℕ) (s : Option Socket) (a : Audio Device) (size : ℕ)
      → BackendLaws b
      → IsBytes m
      → size ≤ length m
      → size < 2 ^ 31
      → IsSettled b Opened opens a
      → a.map.nb_channels ≡ 0
      → (go : Bool) × (r' : Receptor Device) × (handle_packet b name
            (record { socket = s; audio = some a; buffer = m })
            size
          ≡ some (go, r'))
        × Handled name m s a size go r'
  unfolding handle_packet play
  handle_packet-Handled name m s a size laws bytes fits small settled no_map =
      elim (Bool-cases (is_zero (packet_check (some name) (some m) size))) [
        | inr other ↦ (
          true,
          record { socket = s; audio = some a; buffer = m },
          rw other,
          ignored (λ e. ground (arith, e)),
        )
        | inl zero_code ↦
            let ok = is_zero-eq (packet_check (some name) (some m) size) zero_code in
            let (c, config_lem, carried, _) = accepted_config name m size no_config bytes ok in
            let (a', e, v) =
              set_stream-IsConfigured b Opened opens a c (carried_some c carried) settled in
            elim (Bool-cases (is_negative (audio_set_stream_config b (some a) (some c)).0)) [
              | inl bad ↦ (
                false,
                record { socket = s; audio = some a'; buffer = m },
                rw (zero_code, config_lem, bad, e),
                stopped c ok config_lem e bad,
              )
              | inr good ↦
                  let sized : get_elem? bit_resolution_size a'.stream.bit_fmt
                      ≡ some (sample_size_of c.bit_fmt) =
                    rw (v.done good).0 (sizes_found c.bit_fmt carried.format) in
                  let code = (audio_set_stream_config b (some a) (some c)).0 in
                  let plays =
                    play_writes b m s a a' c code size (sample_size_of c.bit_fmt) laws
                      (ap (λ o. (code, o)) e) good sized (rw v.same_map no_map) fits small in
                  (
                    true,
                    record {
                      socket = s;
                      audio = some (record a' {
                        device = (b.write_data a'.device (slice m 28 (size - 28))).1;
                      });
                      buffer = m;
                    },
                    rw (zero_code, config_lem) plays,
                    played c ok config_lem e carried (v.done good).0 v.same_config v.same_map
                        (v.done good).1,
                  )
            ]
      ]
