-- ===== src/Receptor/OneChannel.antt =====
-- The receptor under a channel map of one channel: such a map never makes a packet larger.
use vban.Prelude.{
  ℕ, zero, suc, ◌+◌, ◌-◌, ◌*◌, ◌≤◌, ◌<◌, ◌≡◌, refl, ap, ◌∙◌, arith, Bool, true, false, inl, inr,
  Bool-cases, Progress, still_running, exited, List, some, length, drop,
}
use vban.Prelude.Int.{ℤ, pos, negsuc, is_negative, is_zero}
use vban.Prelude.Memory.{slice}
use vban.Stream.{StreamConfig}
use vban.Packet.{packet_check, packet_get_stream_config, no_config}
use vban.Packet.Prepared.{frame_bytes}
use vban.Packet.Check.{sample_size_of}
use vban.Packet.Config.{IsCarried, accepted_config}
use vban.Socket.{Net, Socket}
use vban.Audio.{Audio, audio_set_stream_config, get_device_config}
use vban.Audio.Channels.Overflow.{map_channels-length}
use vban.Audio.Interface.{Backend, Direction}
use vban.Audio.Streams.{IsSettled, set_stream-IsConfigured}
use vban.Receptor.{
  Receptor, handle_packet, play, on_read, receptor_step, receptor_loop, ReceptorRun,
  release_receptor, run_receptor,
}
use vban.Receptor.Laws.{is_zero-eq, carried_some}
use vban.Receptor.Loop.{IsBuffer, IsRead, ReceivesBytes, Settles, socket_read-IsRead}
use vban.Receptor.Mapped.{handle_packet_maps}

le_times : (x n : ℕ) → 1 ≤ n → x ≤ x * n
le_times x n h = grind (arith, h)

module _ {Device World : Type 0} (b : Backend Device) (net : Net World) (s : Socket) (fuel : ℕ)
    (name : List ℕ) (Opened : Device → StreamConfig → Type 0)
    (opens : (d : Device) (path : List ℕ) (dir : Direction) (size : ℕ) (c : StreamConfig)
      → is_negative (b.open_device d path dir size c).0 ≡ false
      → Opened (b.open_device d path dir size c).1 c)
    (writes : (d : Device) (bytes : List ℕ) (c : StreamConfig)
      → Opened d c
      → Opened (b.write_data d bytes).1 c)
    (receives : ReceivesBytes net) (is_open : 0 < s.fd)
    (settles : (w : World) → Settles net s fuel w) where
  -- The audio object has a map of one channel.
  pub record IsPicking (a : Audio Device) : Type 0 where
    settled : IsSettled b Opened opens a
    one : a.map.nb_channels ≡ 1
    array : 1 ≤ length a.map.channels
    room : length a.buffer ≡ 1436

  pub data IsOngoing : Receptor Device → Type 0 where
    ongoing :
        (a : Audio Device) (m : List ℕ)
        → IsBuffer m
        → IsPicking a
        → IsOngoing (record { socket = some s; audio = some a; buffer = m })

  -- The device takes the parameters of an accepted packet.
  accepted-IsOngoing :
      (m : List ℕ) (a a' : Audio Device) (c : StreamConfig) (code : ℤ) (size frames : ℕ)
      → IsBuffer m
      → size ≤ 1464
      → IsPicking a
      → packet_check (some name) (some m) size ≡ pos 0
      → packet_get_stream_config (some m) (some no_config) ≡ some (pos 0, c)
      → IsCarried c
      → size ≡ 28 + frames * frame_bytes c
      → audio_set_stream_config b (some a) (some c) ≡ (code, some a')
      → is_negative code ≡ false
      → Opened a'.device (get_device_config a')
      → (r' : Receptor Device) × (handle_packet b name
            (record { socket = some s; audio = some a; buffer = m })
            size
          ≡ some (true, r'))
        × IsOngoing r'
  unfolding get_device_config
  accepted-IsOngoing m a a' c code size frames buffer small p ok gets carried whole sets good
        opened =
      let ss = sample_size_of c.bit_fmt in
      let inside : frames * (ss * a.map.nb_channels) ≤ 1436 =
        rw p.one (
          omega (arith, le_times (frames * ss) c.nb_channels carried.some_channel, whole, small)) in
      let (stream, same_map, same_buffer, (out, maps, handled)) =
        handle_packet_maps b name m (some s) a a' c code size frames ok gets whole
          (omega (arith, buffer.0, small)) small carried.format carried.some_channel
          carried.channels sets good p.room (omega (arith, p.one)) (omega (arith, p.one, p.array))
          inside in
      let mapped = slice out 0 (frames * (ss * a'.map.nb_channels)) in
      let same_length =
        map_channels-length ss a'.stream.nb_channels (size - 28) a'.map (drop 28 m) a'.buffer
          maps in
      (
        _,
        handled,
        ongoing (record a' { buffer = out; device = (b.write_data a'.device mapped).1 }) m buffer
            (record {
              settled = inr (writes a'.device mapped (get_device_config a') opened);
              one = ap (λ map. map.nb_channels) same_map ∙ p.one;
              array = rw same_map p.array;
              room = same_length ∙ ap (λ l. length l) same_buffer ∙ p.room;
            }),
      )

  handle_packet-IsOngoing :
      (m : List ℕ) (a : Audio Device) (size : ℕ)
      → IsBuffer m
      → size ≤ 1464
      → IsPicking a
      → (go : Bool) × (r' : Receptor Device) × (handle_packet b name
            (record { socket = some s; audio = some a; buffer = m })
            size
          ≡ some (go, r'))
        × (go ≡ true → IsOngoing r')
  unfolding handle_packet play
  handle_packet-IsOngoing m a size buffer small p =
      elim (Bool-cases (is_zero (packet_check (some name) (some m) size))) [
        | inr other ↦ (true, _, rw other refl, λ _. ongoing a m buffer p)
        | inl zero_code ↦
            let ok = is_zero-eq (packet_check (some name) (some m) size) zero_code in
            let (c, gets, carried, (frames, _, _, whole)) =
              accepted_config name m size no_config buffer.1 ok in
            let (a', e, v) =
              set_stream-IsConfigured b Opened opens a c (carried_some c carried) p.settled in
            let code = (audio_set_stream_config b (some a) (some c)).0 in
            elim (Bool-cases (is_negative code)) [
              | inl bad ↦ (
                false,
                record { socket = some s; audio = some a'; buffer = m },
                rw (zero_code, gets, bad, e),
                λ going. absurd (cc),
              )
              | inr good ↦
                  let (r', handled, later) =
                    accepted-IsOngoing m a a' c code size frames buffer small p ok gets carried
                      whole (ap (λ o. (code, o)) e) good (v.done good).1 in
                  (true, r', handled, λ _. later)
            ]
      ]

  on_read-IsOngoing :
      (ret : ℤ) (m : List ℕ) (a : Audio Device)
      → IsRead ret m
      → IsPicking a
      → (go : Bool) × (r' : Receptor Device) × (on_read b name
            (record { socket = some s; audio = some a; buffer = m })
            ret
          ≡ some (go, r'))
        × (go ≡ true → IsOngoing r')
  unfolding on_read
  on_read-IsOngoing (negsuc k) m a read p = (false, _, refl, λ going. absurd (cc))
  on_read-IsOngoing (pos size) m a (buffer, small) p =
      handle_packet-IsOngoing m a size buffer small p

  -- What is left of the loop: if it still runs, the receptor is as between two rounds.
  abbrev Goes : Progress (Receptor Device × World) (Receptor Device × World) → Type 0
  Goes (still_running (r, w)) = IsOngoing r
  Goes (exited state) = Unit {0}

  -- What is left of the program: it is between two rounds, or it has exited with 0.
  abbrev pub IsHealthy : ReceptorRun b net → Type 0
  IsHealthy (still_running (r, w)) = IsOngoing r
  IsHealthy (exited (code, device, w)) = code ≡ pos 0

  released-IsHealthy :
      (p : Progress (Receptor Device × World) (Receptor Device × World))
      → Goes p
      → IsHealthy (release_receptor b net p)
  released-IsHealthy (still_running (r, w)) goes = goes
  released-IsHealthy (exited (r, w)) goes = refl

  receptor_loop-ends :
      (rounds : ℕ) (r : Receptor Device) (w : World)
      → IsOngoing r
      → (p : Progress (Receptor Device × World) (Receptor Device × World)) × (receptor_loop b net
            rounds fuel name r w
          ≡ some p)
        × Goes p
  unfolding receptor_loop receptor_step
  receptor_loop-ends zero r w running = (still_running (r, w), refl, running)
  receptor_loop-ends (suc rounds) r w (ongoing a m buffer p) =
      let (ret, m', w', reads, read) =
        socket_read-IsRead net s receives m is_open buffer (settles w) in
      let (go, r', handles, later) = on_read-IsOngoing ret m' a read p in
      elim (Bool-cases go) [
        | inl going ↦
            let (p, loops, goes) = receptor_loop-ends rounds r' w' (later going) in
            (p, rw (reads, handles, going) loops, goes)
        | inr over ↦ (exited (r', w'), rw (reads, handles, over) refl, tt)
      ]

  -- Take a backend that stays open when it is written to, a network that stores bytes, and no more than it
  -- is asked for, and on which fewer datagrams of other addresses than `fuel` arrive in a row. From an
  -- open socket, a buffer of 1464 bytes and a settled audio object with a map of one channel, the
  -- receptor is followed for any number of rounds without a fault, whatever the datagrams hold: it
  -- still runs, with such a socket, buffer and object, or it has exited with 0.
  pub run_receptor_one_channel :
      (rounds : ℕ) (a : Audio Device) (m : List ℕ) (w : World)
      → IsBuffer m
      → IsSettled b Opened opens a
      → a.map.nb_channels ≡ 1
      → 1 ≤ length a.map.channels
      → length a.buffer ≡ 1436
      → (p : ReceptorRun b net) × (run_receptor b net rounds fuel name
            (record { socket = some s; audio = some a; buffer = m })
            w
          ≡ some p)
        × IsHealthy p
  unfolding run_receptor
  run_receptor_one_channel rounds a m w buffer settled one array room =
      let picking : IsPicking a = record {
        settled = settled;
        one = one;
        array = array;
        room = room;
      } in
      let (p, loops, goes) = receptor_loop-ends rounds _ w (ongoing a m buffer picking) in
      (release_receptor b net p, rw loops refl, released-IsHealthy p goes)
