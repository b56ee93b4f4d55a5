-- ===== src/Receptor/Loop.antt =====
-- The loop of the receptor as a whole: whatever datagrams arrive, it does not fault.
use vban.Prelude.{
  ℕ, zero, suc, ◌+◌, ◌-◌, ◌≤◌, ◌<◌, ◌≡◌, refl, ap, ◌∙◌, arith, Bool, true, false, inl, inr,
  Bool-cases, Progress, still_running, exited, List, some, length, ◌==◌,
}
use vban.Prelude.Int.{ℤ, pos, negsuc, is_negative}
use vban.Prelude.Memory.{IsBytes, splice, splice-IsBytes, length-splice, slice}
use vban.Prelude.CString.{strncmp_eq}
use vban.Stream.{StreamConfig}
use vban.Socket.{Net, Socket, failed, datagram, on_received, receive_from, socket_read}
use vban.Audio.{Audio, get_device_config}
use vban.Audio.Interface.{Backend, BackendLaws, Direction}
use vban.Audio.Streams.{IsSettled}
use vban.Receptor.{
  Receptor, on_read, receptor_step, receptor_loop, ReceptorRun, release_receptor, run_receptor,
}
use vban.Socket.Receiving.{receive_same, receive_other}
use vban.Receptor.Laws.{Handled, ignored, stopped, played, handle_packet-Handled}

-- The buffer of `struct main_t`.
abbrev pub IsBuffer : List ℕ → Type 0
IsBuffer m = (length m ≡ 1464) × IsBytes m

-- What `recvfrom` promises: at most `n` bytes are stored.
abbrev pub ReceivesBytes : {World : Type 0} → Net World → Type 0
ReceivesBytes {World} net =
    (w w' : World) (fd n : ℕ) (sender bytes : List ℕ)
    → net.receive w fd n ≡ (datagram sender bytes, w')
    → (length bytes ≤ n) × IsBytes bytes

-- What `socket_read` may leave: a buffer, and a code that is at most its size.
abbrev pub IsRead : ℤ → List ℕ → Type 0
IsRead (pos n) m = IsBuffer m × (n ≤ 1464)
IsRead (negsuc k) m = IsBuffer m

splice-IsBuffer :
    (m bytes : List ℕ)
    → IsBuffer m
    → length bytes ≤ 1464
    → IsBytes bytes
    → IsBuffer (splice m 0 bytes)
splice-IsBuffer m bytes buffer fits is_bytes =
    let room : 0 + length bytes ≤ length m = omega (arith, buffer.0) in
    (length-splice m 0 bytes room ∙ buffer.0, splice-IsBytes m 0 bytes room buffer.1 is_bytes)

module _ {World : Type 0} (net : Net World) (s : Socket) where
  -- What `recvfrom` does next: after fewer than `n` datagrams of other addresses in a row it fails, or
  -- gives one of the configured address.
  pub data Settles : ℕ → World → Type 0 where
    fails : {n k : ℕ} {w w' : World} → net.receive w s.fd 1464 ≡ (failed k, w') → Settles (suc n) w
    matches :
        {n : ℕ} {w w' : World} {sender bytes : List ℕ}
        → net.receive w s.fd 1464 ≡ (datagram sender bytes, w')
        → strncmp_eq 32 s.config.ip_address sender ≡ true
        → Settles (suc n) w
    passes :
        {n : ℕ} {w w' : World} {sender bytes : List ℕ}
        → net.receive w s.fd 1464 ≡ (datagram sender bytes, w')
        → strncmp_eq 32 s.config.ip_address sender ≡ false
        → Settles n w'
        → Settles (suc n) w

  module _ (receives : ReceivesBytes net) where
    receive_from-IsRead :
        {fuel : ℕ} {w : World} (m : List ℕ)
        → IsBuffer m
        → Settles fuel w
        → (ret : ℤ) × (m' : List ℕ) × (w' : World) × (receive_from net fuel s m 1464 w
            ≡ some (ret, m', w'))
          × IsRead ret m'
    unfolding receive_from on_received
    receive_from-IsRead m buffer (fails {n} {k} {w} {w'} e) = (negsuc k, m, w', rw e refl, buffer)
    receive_from-IsRead m buffer (matches {n} {w} {w'} {sender} {bytes} e same) =
        let (fits, is_bytes) = receives w w' s.fd 1464 sender bytes e in
        (
          pos (length bytes),
          splice m 0 bytes,
          w',
          receive_same net s 1464 n m e same (omega (arith, fits, buffer.0)),
          (splice-IsBuffer m bytes buffer fits is_bytes, fits),
        )
    receive_from-IsRead m buffer (passes {n} {w} {w'} {sender} {bytes} e other later) =
        let (fits, is_bytes) = receives w w' s.fd 1464 sender bytes e in
        let (ret, m', w'', returns, read) =
          receive_from-IsRead (splice m 0 bytes) (splice-IsBuffer m bytes buffer fits is_bytes)
            later in
        (
          ret,
          m',
          w'',
          receive_other net s 1464 n m e other (omega (arith, fits, buffer.0)) ∙ returns,
          read,
        )

    -- An open socket's `socket_read` returns, and gives the buffer back.
    pub socket_read-IsRead :
        {fuel : ℕ} {w : World} (m : List ℕ)
        → 0 < s.fd
        → IsBuffer m
        → Settles fuel w
        → (ret : ℤ) × (m' : List ℕ) × (w' : World) × (socket_read net fuel (some s) (some m) 1464 w
            ≡ some (ret, some m', w'))
          × IsRead ret m'
    unfolding socket_read
    socket_read-IsRead m is_open buffer settles =
        let closed : (s.fd == 0) ≡ false = ground (arith, is_open) in
        let (ret, m', w', returns, read) = receive_from-IsRead m buffer settles in
        (ret, m', w', rw (closed, returns) refl, read)

module _ {Device World : Type 0} (b : Backend Device) (net : Net World) (s : Socket) (fuel : ℕ)
    (name : List ℕ) (Opened : Device → StreamConfig → Type 0)
    (opens : (d : Device) (path : List ℕ) (dir : Direction) (size : ℕ) (c : StreamConfig)
      → is_negative (b.open_device d path dir size c).0 ≡ false
      → Opened (b.open_device d path dir size c).1 c)
    (writes : (d : Device) (bytes : List ℕ) (c : StreamConfig)
      → Opened d c
      → Opened (b.write_data d bytes).1 c)
    (laws : BackendLaws b) (receives : ReceivesBytes net) (is_open : 0 < s.fd)
    (settles : (w : World) → Settles net s fuel w) where
  -- The receptor between two rounds.
  pub data IsOngoing : Receptor Device → Type 0 where
    ongoing :
        (a : Audio Device) (m : List ℕ)
        → IsBuffer m
        → IsSettled b Opened opens a
        → a.map.nb_channels ≡ 0
        → IsOngoing (record { socket = some s; audio = some a; buffer = m })

  Handled-IsOngoing :
      {m : List ℕ} {a : Audio Device} {size : ℕ} {go : Bool} {r : Receptor Device}
      → Handled b Opened opens name m (some s) a size go r
      → IsBuffer m
      → IsSettled b Opened opens a
      → a.map.nb_channels ≡ 0
      → go ≡ true
      → IsOngoing r
  unfolding get_device_config
  Handled-IsOngoing {m} {a} (ignored other) buffer settled no_map going =
      ongoing a m buffer settled no_map
  Handled-IsOngoing (stopped c ok gets sets bad) buffer settled no_map going = cc
  Handled-IsOngoing {m} {a} {size} (played {a'} c ok gets sets carried stream config map opened)
        buffer settled no_map going =
      ongoing (record a' { device = (b.write_data a'.device (slice m 28 (size - 28))).1 }) m buffer
        (inr (writes a'.device (slice m 28 (size - 28)) (get_device_config a') opened))
        (ap (λ m. m.nb_channels) map ∙ no_map)

  on_read-IsOngoing :
      (ret : ℤ) (m : List ℕ) (a : Audio Device)
      → IsRead ret m
      → IsSettled b Opened opens a
      → a.map.nb_channels ≡ 0
      → (go : Bool) × (r' : Receptor Device) × (on_read b name
            (record { socket = some s; audio = some a; buffer = m })
            ret
          ≡ some (go, r'))
        × (go ≡ true → IsOngoing r')
  unfolding on_read
  on_read-IsOngoing (negsuc k) m a read settled no_map = (false, _, refl, λ e. cc)
  on_read-IsOngoing (pos size) m a (buffer, small) settled no_map =
      let (go, r', handles, handled) =
        handle_packet-Handled b Opened opens name m (some s) a size laws buffer.1
          (omega (arith, buffer.0)) (omega arith) settled no_map in
      (go, r', handles, λ going. Handled-IsOngoing handled buffer settled no_map going)

  receptor_step-IsOngoing :
      (r : Receptor Device) (w : World)
      → IsOngoing r
      → (go : Bool) × (r' : Receptor Device) × (w' : World) × (receptor_step b net fuel name r w
          ≡ some (go, r', w'))
        × (go ≡ true → IsOngoing r')
  unfolding receptor_step
  receptor_step-IsOngoing r w (ongoing a m buffer settled no_map) =
      let (ret, m', w', reads, read) =
        socket_read-IsRead net s receives m is_open buffer (settles w) in
      let (go, r', handles, later) = on_read-IsOngoing ret m' a read settled no_map in
      (go, r', w', rw (reads, handles) refl, later)

  -- What is left of the loop: if it still runs, the receptor is as between two rounds.
  abbrev Goes : Progress (Receptor Device × World) (Receptor Device × World) → Type 0
  Goes (still_running (r, w)) = IsOngoing r
  Goes (exited state) = Unit {0}

  -- What is left of the program: it is between two rounds, or it has exited with 0.
  abbrev pub IsHealthy : ReceptorRun b net → Type 0
  IsHealthy (still_running (r, w)) = IsOngoing r
  IsHealthy (exited (code, device, w)) = code ≡ pos 0

  released-IsHealthy :
      (p : Progress (Receptor Device × World) (Receptor Device × World))
      → Goes p
      → IsHealthy (release_receptor b net p)
  released-IsHealthy (still_running (r, w)) goes = goes
  released-IsHealthy (exited (r, w)) goes = refl

  receptor_loop-ends :
      (rounds : ℕ) (r : Receptor Device) (w : World)
      → IsOngoing r
      → (p : Progress (Receptor Device × World) (Receptor Device × World)) × (receptor_loop b net
            rounds fuel name r w
          ≡ some p)
        × Goes p
  unfolding receptor_loop
  receptor_loop-ends zero r w running = (still_running (r, w), refl, running)
  receptor_loop-ends (suc rounds) r w running =
      let (go, r', w', steps, later) = receptor_step-IsOngoing r w running in
      elim (Bool-cases go) [
        | inl going ↦
            let (p, loops, goes) = receptor_loop-ends rounds r' w' (later going) in
            (p, rw (steps, going) loops, goes)
        | inr over ↦ (exited (r', w'), rw (steps, over) refl, tt)
      ]

  -- Take a backend that keeps its contract and stays open when it is written to, a network that stores
  -- bytes, and no more than it is asked for, and on which fewer datagrams of other addresses than `fuel`
  -- arrive in a row. From an open socket, a buffer of 1464 bytes and a settled audio object without a
  -- channel map, the receptor is followed for any number of rounds without a fault, whatever the
  -- datagrams hold: it still runs, with such a socket, buffer and object, or it has exited with 0.
  pub run_receptor_lem :
      (rounds : ℕ) (a : Audio Device) (m : List ℕ) (w : World)
      → IsBuffer m
      → IsSettled b Opened opens a
      → a.map.nb_channels ≡ 0
      → (p : ReceptorRun b net) × (run_receptor b net rounds fuel name
            (record { socket = some s; audio = some a; buffer = m })
            w
          ≡ some p)
        × IsHealthy p
  unfolding run_receptor
  run_receptor_lem rounds a m w buffer settled no_map =
      let (p, loops, goes) = receptor_loop-ends rounds _ w (ongoing a m buffer settled no_map) in
      (release_receptor b net p, rw loops refl, released-IsHealthy p goes)
