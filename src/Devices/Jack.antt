-- ===== src/Devices/Jack.antt =====
-- src/common/backend/jack_backend.c: playback through a JACK server. `write` puts the payload into a
-- ring buffer of JACK's, and the server's callback takes the samples out of it (Process). The backend
-- has no `read`; the emitter refuses it. A fault is `none`.
pub mod Process
pub mod Convert
pub mod Laws
pub mod Ports
mod Tests
use vban.Prelude.{
  ℕ, zero, suc, ◌*◌, ◌/◌, ◌%◌, ◌^◌, Bool, true, false, List, [], ◌∷◌, Option, none, some, length,
  replicate, get_elem?, ltb, ◌==◌, not, if◌then◌else◌, ◌>>=◌,
}
use vban.Prelude.Int.{ℤ, pos, is_zero, as_int, enodev, enomem}
use vban.Prelude.CString.{char_of, codes}
use vban.Vban.{bit_resolution_size}
use vban.Stream.{StreamConfig}
use vban.Audio.Interface.{Direction, InitResult, initialised, refused}
use Process.{Ringbuffer, process}

-- `NB_BUFFERS`
abbrev pub nb_buffers : ℕ
nb_buffers = 2

-- The functions of JACK that the backend calls on its client, over the state of the server. A port is
-- registered under the number in its name; `get_ports` lists the ports that playback can go to.
-- `calloc` is what the C library answers for a number of bytes: whether there is memory.
pub record Jack (World Client Port Target : Type 0) : Type 0 where
  pub client_open : World → List ℕ → Option Client × World
  pub get_buffer_size : World → Client → ℕ
  pub set_process_callback : World → Client → ℤ × World
  pub on_shutdown : World → Client → World
  pub activate : World → Client → ℤ × World
  pub deactivate : World → Client → ℤ × World
  pub client_close : World → Client → ℤ × World
  pub port_register : World → Client → ℕ → Option Port × World
  pub get_ports : World → Client → Option (List Target)
  pub connect : World → Client → Port → Target → ℤ × World
  pub calloc : World → ℕ → Bool

-- `struct jack_backend_t`, with the state of the server. `ports` is the array
-- of `VBAN_CHANNELS_MAX_NB` pointers; a null pointer is `none`.
pub record JackDevice (World Client Port Ring : Type 0) : Type 0 where
  pub client : Option Client
  pub ports : List (Option Port)
  pub ring : Option Ring
  pub bit_fmt : ℕ
  pub nb_channels : ℕ
  pub active : Bool
  pub world : World

-- `port != 0`
abbrev pub is_set : {Port : Type 0} → Option Port → Bool
is_set none = false
is_set (some port) = true

-- The array with nothing in it.
abbrev pub no_ports : {Port : Type 0} → List (Option Port)
no_ports {Port} = replicate {A = Option Port} 256 none

-- `ports[port] = p`: behind the end of the array it faults.
unfoldable pub set_port :
    {Port : Type 0} → List (Option Port) → ℕ → Option Port → Option (List (Option Port))
set_port [] port p = none
set_port (q ∷ ports) zero p = some (p ∷ ports)
set_port (q ∷ ports) (suc port) p = set_port ports port p >>= λ ports'. some (q ∷ ports')

module _ {World Client Port Target Ring : Type 0} (jack : Jack World Client Port Target)
    (ringbuffer : Ringbuffer Ring) where
  abbrev Device : Type 0
  Device = JackDevice World Client Port Ring

  -- `jack_backend_init`; the first argument says whether `calloc` gives memory.
  unfoldable pub jack_backend_init : Bool → World → InitResult Device
  jack_backend_init false w = refused enomem
  jack_backend_init true w = initialised (record {
    client = none;
    ports = no_ports;
    ring = none;
    bit_fmt = 0;
    nb_channels = 0;
    active = false;
    world = w;
  })

  -- `jack_close` of a client. The ring buffer is given back, and the pointer to it stays.
  unfoldable pub close_client : Device → Client → ℤ × Device
  close_client d client =
      let deactivated = (jack.deactivate d.world client).1 in
      let (ret, w) = jack.client_close deactivated client in
      (ret, record d { client = none; ports = no_ports; active = false; world = w })

  unfoldable pub jack_close : Device → ℤ × Device
  jack_close d = elim d.client [ none ↦ (pos 0, d) | some client ↦ close_client d client ]

  -- The first loop of `jack_start`: the ports left, and the port. A port that cannot be registered
  -- ends it; the result says whether all of them were. There is no test of the array's size.
  unfoldable pub register_ports : Client → ℕ → ℕ → Device → Option (Bool × Device)
  register_ports client zero port d = some (true, d)
  register_ports client (suc left) port d =
      let (p, w) = jack.port_register d.world client (suc port) in
      set_port d.ports port p >>= λ ports.
      let d' = record d { ports = ports; world = w } in
      elim (is_set p) [ true ↦ register_ports client left (suc port) d' | false ↦ some (false, d') ]

  -- The second loop: the targets from `port_id` on, the channels left, and `ret`. A null port faults.
  unfoldable pub connect_ports : Client → List Target → ℕ → ℕ → ℤ → Device → Option (ℤ × Device)
  connect_ports client [] left port_id ret d = some (ret, d)
  connect_ports client (target ∷ targets) zero port_id ret d = some (ret, d)
  connect_ports client (target ∷ targets) (suc left) port_id ret d =
      get_elem? d.ports port_id >>= λ slot. slot >>= λ port.
      let (ret', w) = jack.connect d.world client port target in
      connect_ports client targets left (suc port_id) ret' (record d { world = w })

  -- `jack_start` once the client is active.
  unfoldable pub start_ports : Client → ℤ → Device → Option (ℤ × Device)
  start_ports client ret d = register_ports client d.nb_channels 0 d >>= λ (registered, d').
      if not registered
      then some (enodev, (jack_close d').1)
      else elim (jack.get_ports d'.world client) [
        | none ↦ some (ret, d')
        | some targets ↦ connect_ports client targets d'.nb_channels 0 ret d'
      ]

  unfoldable pub jack_start : Client → Device → Option (ℤ × Device)
  jack_start client d =
      let (ret, w) = jack.activate d.world client in
      let d' = record d { world = w } in
      if not (is_zero ret) then some (ret, d') else start_ports client ret d'

  -- The bytes that `calloc` gave, of which `n` are read: without memory that faults, unless `n` is 0.
  unfoldable pub read_zeros : Bool → ℕ → Option (List ℕ)
  read_zeros true n = some (replicate n 0)
  read_zeros false n = if n == 0 then some [] else none

  -- `jack_open` once there is a client. The server's buffer is measured with the number of channels
  -- that is still set from before. Neither the ring buffer nor the block of zeros is tested: a null
  -- pointer is followed, by `jack_ringbuffer_write`.
  unfoldable pub open_with : Client → Device → ℕ → StreamConfig → Option (ℤ × Device)
  open_with client d buffer_size config =
      get_elem? bit_resolution_size config.bit_fmt >>= λ sample_size.
      let jack_buffer_size =
        jack.get_buffer_size d.world client * d.nb_channels * sample_size % 2 ^ 32 in
      let size = if ltb jack_buffer_size buffer_size then buffer_size else jack_buffer_size in
      let full_size = size * nb_buffers % 2 ^ 64 in
      let zeros_size = full_size / nb_buffers in
      ringbuffer.create full_size >>= λ created.
      read_zeros (jack.calloc d.world zeros_size) zeros_size >>= λ zeros.
      let ring = ringbuffer.write created zeros in
      let (ret, w) = jack.set_process_callback d.world client in
      let d' = record d {
        ring = some ring;
        nb_channels = config.nb_channels;
        bit_fmt = config.bit_fmt;
        world = w;
      } in
      if not (is_zero ret)
      then some (ret, (jack_close d').1)
      else jack_start client (record d' { world = jack.on_shutdown w client })

  -- `jack_open` behind `jack_client_open`.
  unfoldable pub open_opened : Option Client → Device → ℕ → StreamConfig → Option (ℤ × Device)
  open_opened none d buffer_size config = some (enodev, d)
  open_opened (some client) d buffer_size config = open_with client d buffer_size config

  -- `jack_open` for the client that is there already, or a new one.
  unfoldable pub open_client :
      Option Client → Device → List ℕ → ℕ → StreamConfig → Option (ℤ × Device)
  open_client (some client) d output_name buffer_size config = open_with client d buffer_size config
  open_client none d output_name buffer_size config =
      let name = if char_of output_name == 0 then codes "vban" else output_name in
      let (client, w) = jack.client_open d.world name in
      open_opened client (record d { client = client; world = w }) buffer_size config

  unfoldable pub jack_open : Device → List ℕ → Direction → ℕ → StreamConfig → Option (ℤ × Device)
  jack_open d output_name direction buffer_size config =
      open_client d.client d output_name buffer_size config

  -- `jack_write` on an active client. A payload that does not fit is dropped as a whole.
  unfoldable pub write_ring : Device → List ℕ → Option (ℤ × Device)
  write_ring d data_in = d.ring >>= λ ring.
      if ltb (ringbuffer.write_space ring) (length data_in)
      then some (pos 0, d)
      else some (as_int (length data_in), record d { ring = some (ringbuffer.write ring data_in) })

  unfoldable pub jack_write : Device → List ℕ → Option (ℤ × Device)
  jack_write d data_in =
      if not (is_set d.client)
      then some (enodev, d)
      else if d.active
      then write_ring d data_in
      else some (as_int (length data_in), d)

  -- `jack_shutdown_cb`
  unfoldable pub jack_shutdown_cb : Device → Device
  jack_shutdown_cb d = (jack_close d).1

  -- `jack_process_cb` for a period of `nframes` frames: what is stored into the ports' buffers.
  unfoldable pub jack_process_cb :
      {F : Type 0} → (List ℕ → F) → Device → ℕ → Option (List (ℕ × ℕ × F) × Device)
  jack_process_cb convert d nframes = do
    sample_size ← get_elem? bit_resolution_size d.bit_fmt
    ring ← d.ring
    (stores, ring') ← process ringbuffer convert sample_size d.nb_channels nframes ring
    some (stores, record d { ring = some ring'; active = true })
