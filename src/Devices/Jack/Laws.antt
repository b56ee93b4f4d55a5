-- ===== src/Devices/Jack/Laws.antt =====
-- The JACK device between the calls: a device with a client has its ring buffer.
use vban.Prelude.{
  Bool, ◌≤◌, ap, get_elem?, ℕ, zero, suc, ◌+◌, ◌*◌, ◌/◌, ◌%◌, ◌^◌, ◌<◌, ◌≡◌, refl, ◌∙◌, arith, true,
  false, inl, inr, Bool-cases, Option-cases, List, [], ◌∷◌, replicate, Option, none, some, length,
  get_elem?-some, ltb, ◌==◌, if◌then◌else◌,
}
use vban.Prelude.Int.{ℤ, pos, is_zero, as_int, enodev}
use vban.Prelude.CString.{char_of, codes}
use vban.Vban.{bit_resolution_size}
use vban.Stream.{StreamConfig}
use vban.Audio.Interface.{Direction}
use vban.Devices.Jack.{
  Jack, JackDevice, read_zeros, nb_buffers, close_client, jack_close, set_port, is_set,
  register_ports, connect_ports, start_ports, jack_start, open_with, open_opened, open_client,
  jack_open, write_ring, jack_write,
}
use vban.Devices.Jack.Ports.{set_port-some, get_elem?-set_port, set_port_before}
use vban.Devices.Jack.Process.{Ringbuffer}

module _ {World Client Port Target Ring : Type 0} (jack : Jack World Client Port Target)
    (ringbuffer : Ringbuffer Ring) where
  abbrev pub Device : Type 0
  Device = JackDevice World Client Port Ring

  pub data IsSound (d : Device) : Type 0 where
    closed : d.client ≡ none → length d.ports ≡ 256 → IsSound d
    opened : (r : Ring) → d.ring ≡ some r → length d.ports ≡ 256 → IsSound d

  -- The ports below `n` are registered.
  abbrev Filled : List (Option Port) → ℕ → Type 0
  Filled ports n = (i : ℕ) → i < n → (p : Port) × (get_elem? ports i ≡ some (some p))

  close-IsSound : (d : Device) → length d.ports ≡ 256 → IsSound (jack_close jack ringbuffer d).1
  unfolding jack_close close_client
  close-IsSound d array = elim (Option-cases d.client) [
    | inl none_open ↦ rw none_open (closed refl array)
    | inr (client, is_open) ↦ rw is_open (closed refl refl)
  ]

  set_some : {P : Type 0} (o : Option P) → is_set o ≡ true → (p : P) × (o ≡ some p)
  set_some none h = absurd (ground arith)
  set_some (some p) h = (p, refl)

  Filled-next :
      (ports ports' : List (Option Port)) (port : ℕ) (p : Option Port)
      → Filled ports port
      → set_port ports port p ≡ some ports'
      → is_set p ≡ true
      → Filled ports' (suc port)
  Filled-next ports ports' port p filled sets registers i lt = elim (Bool-cases (i == port)) [
    | inl here ↦
        let same : i ≡ port = ground arith in
        let (q, is_port) = set_some p registers in
        (q, rw same (get_elem?-set_port ports port p sets ∙ ap some is_port))
    | inr before ↦
        let (q, at) = filled i (ground (arith, lt, before)) in
        (q, set_port_before ports port p i (ground (arith, lt, before)) sets ∙ at)
  ]

  register_ports_lem :
      (client : Client) (left port : ℕ) (d : Device)
      → length d.ports ≡ 256
      → port + left ≤ 256
      → Filled d.ports port
      → (registered : Bool) × (d' : Device) × (register_ports jack ringbuffer client left port d
          ≡ some (registered, d'))
        × (d'.ring ≡ d.ring)
        × (d'.nb_channels ≡ d.nb_channels)
        × (length d'.ports ≡ 256)
        × (registered ≡ true → Filled d'.ports (port + left))
  unfolding register_ports
  register_ports_lem client zero port d array room filled =
      (true, d, refl, refl, refl, array, λ _ i lt. filled i (omega arith))
  register_ports_lem client (suc left) port d array room filled =
      let (p, w) = jack.port_register d.world client (suc port) in
      let (ports, sets, same) = set_port-some d.ports port p (omega (arith, array, room)) in
      let d' = record d { ports = ports; world = w } in
      elim (Bool-cases (is_set p)) [
        | inr missing ↦ (
          false,
          d',
          rw (sets, missing) refl,
          refl,
          refl,
          same ∙ array,
          λ h. absurd (ground arith),
        )
        | inl registers ↦
            let (registered, d'', rest, same_ring, same_count, array', fills) =
              register_ports_lem client left (suc port) d' (same ∙ array) (omega (arith, room))
                (Filled-next d.ports ports port p filled sets registers) in
            (
              registered,
              d'',
              rw (sets, registers) rest,
              same_ring,
              same_count,
              array',
              λ h i lt. fills h i (omega arith),
            )
      ]

  connect_ports_lem :
      (client : Client) (targets : List Target) (left port_id : ℕ) (ret : ℤ) (d : Device)
      → Filled d.ports (port_id + left)
      → (ret' : ℤ) × (d' : Device) × (connect_ports jack ringbuffer client targets left port_id ret
            d
          ≡ some (ret', d'))
        × (d'.ring ≡ d.ring)
        × (d'.ports ≡ d.ports)
  unfolding connect_ports
  connect_ports_lem client [] left port_id ret d filled = (ret, d, refl, refl, refl)
  connect_ports_lem client (target ∷ targets) zero port_id ret d filled = (ret, d, refl, refl, refl)
  connect_ports_lem client (target ∷ targets) (suc left) port_id ret d filled =
      let (port, at) = filled port_id (omega arith) in
      let (ret', w) = jack.connect d.world client port target in
      let (ret'', d', connects, same, same_ports) =
        connect_ports_lem client targets left (suc port_id) ret' (record d { world = w })
          (λ i lt. filled i (omega arith)) in
      (ret'', d', rw at connects, same, same_ports)

  -- A result of `jack_open` or of a part of it: no fault, and a sound device.
  abbrev pub Succeeds : Option (ℤ × Device) → Type 0
  Succeeds result = (ret : ℤ) × (d' : Device) × (result ≡ some (ret, d')) × IsSound d'

  start_ports_lem :
      (client : Client) (ret : ℤ) (d : Device) (r : Ring)
      → d.ring ≡ some r
      → length d.ports ≡ 256
      → d.nb_channels ≤ 256
      → Succeeds (start_ports jack ringbuffer client ret d)
  unfolding start_ports
  start_ports_lem client ret d r has_ring array few =
      let (registered, d1, registers, same_ring, same_count, array1, fills) =
        register_ports_lem client d.nb_channels 0 d array (omega (arith, few))
          (λ i lt. absurd (omega arith)) in
      elim (Bool-cases registered) [
        | inr some_missing ↦ (
          enodev,
          (jack_close jack ringbuffer d1).1,
          rw (registers, some_missing) refl,
          close-IsSound d1 array1,
        )
        | inl all ↦ elim (Option-cases (jack.get_ports d1.world client)) [
          | inl nowhere ↦
              (ret, d1, rw (registers, all, nowhere) refl, opened r (same_ring ∙ has_ring) array1)
          | inr (targets, ports) ↦
              let (ret', d', connects, same, same_ports) =
                connect_ports_lem client targets d1.nb_channels 0 ret d1
                  (λ i lt. fills all i (omega (arith, lt, same_count))) in
              (
                ret',
                d',
                rw (registers, all, ports) connects,
                opened r (same ∙ same_ring ∙ has_ring) (ap (λ l. length l) same_ports ∙ array1),
              )
        ]
      ]

  module _ (creates : (n : ℕ) → (r : Ring) × (ringbuffer.create n ≡ some r))
      (has_memory : (w : World) (n : ℕ) → jack.calloc w n ≡ true) where
    open_with_lem :
        (client : Client) (d : Device) (buffer_size : ℕ) (c : StreamConfig)
        → c.bit_fmt < 8
        → c.nb_channels ≤ 256
        → length d.ports ≡ 256
        → Succeeds (open_with jack ringbuffer client d buffer_size c)
    unfolding open_with jack_start read_zeros
    open_with_lem client d buffer_size c format few array =
        let (size, sized) = get_elem?-some bit_resolution_size c.bit_fmt format in
        let set = jack.set_process_callback d.world client in
        let measured = jack.get_buffer_size d.world client * d.nb_channels * size % 2 ^ 32 in
        let larger = if ltb measured buffer_size then buffer_size else measured in
        let full_size = larger * nb_buffers % 2 ^ 64 in
        let (empty, created) = creates full_size in
        let memory = has_memory d.world (full_size / nb_buffers) in
        let ring = ringbuffer.write empty (replicate (full_size / nb_buffers) 0) in
        let d' = record d {
          ring = some ring;
          nb_channels = c.nb_channels;
          bit_fmt = c.bit_fmt;
          world = set.1;
        } in
        elim (Bool-cases (is_zero set.0)) [
          | inr refuses ↦ (
            set.0,
            (jack_close jack ringbuffer d').1,
            rw (sized, created, memory, refuses) refl,
            close-IsSound d' array,
          )
          | inl callback ↦
              let shown = record d' { world = jack.on_shutdown set.1 client } in
              let started = jack.activate shown.world client in
              elim (Bool-cases (is_zero started.0)) [
                | inr inactive ↦ (
                  started.0,
                  record shown { world = started.1 },
                  rw (sized, created, memory, callback, inactive) refl,
                  opened ring refl array,
                )
                | inl active ↦
                    let (ret, d'', starts, sound) =
                      start_ports_lem client started.0 (record shown { world = started.1 }) ring
                        refl array few in
                    (ret, d'', rw (sized, created, memory, callback, active) starts, sound)
              ]
        ]

    open_opened_lem :
        (o : Option Client) (d : Device) (buffer_size : ℕ) (c : StreamConfig)
        → c.bit_fmt < 8
        → c.nb_channels ≤ 256
        → length d.ports ≡ 256
        → d.client ≡ o
        → Succeeds (open_opened jack ringbuffer o d buffer_size c)
    unfolding open_opened
    open_opened_lem none d buffer_size c format few array same =
        (enodev, d, refl, closed same array)
    open_opened_lem (some client) d buffer_size c format few array same =
        open_with_lem client d buffer_size c format few array

    open_client_lem :
        (o : Option Client) (d : Device) (name : List ℕ) (buffer_size : ℕ) (c : StreamConfig)
        → c.bit_fmt < 8
        → c.nb_channels ≤ 256
        → length d.ports ≡ 256
        → Succeeds (open_client jack ringbuffer o d name buffer_size c)
    unfolding open_client
    open_client_lem (some client) d name buffer_size c format few array =
        open_with_lem client d buffer_size c format few array
    open_client_lem none d name buffer_size c format few array =
        let shown = if char_of name == 0 then codes "vban" else name in
        let (client, w) = jack.client_open d.world shown in
        open_opened_lem client (record d { client = client; world = w }) buffer_size c format few
          array refl

  write_lem :
      (d : Device) (data_in : List ℕ) → IsSound d → Succeeds (jack_write jack ringbuffer d data_in)
  unfolding jack_write write_ring
  write_lem d data_in (closed none_open array) =
      (enodev, d, rw none_open refl, closed none_open array)
  write_lem d data_in (opened r has_ring array) = elim (Bool-cases (is_set d.client)) [
    | inr none_open ↦ (enodev, d, rw none_open refl, opened r has_ring array)
    | inl is_open ↦ elim (Bool-cases d.active) [
      | inr idle ↦ (as_int (length data_in), d, rw (is_open, idle) refl, opened r has_ring array)
      | inl active ↦ elim (Bool-cases (ltb (ringbuffer.write_space r) (length data_in))) [
        | inl full ↦ (pos 0, d, rw (is_open, active, has_ring, full) refl, opened r has_ring array)
        | inr fits ↦ (
          as_int (length data_in),
          record d { ring = some (ringbuffer.write r data_in) },
          rw (is_open, active, has_ring, fits) refl,
          opened (ringbuffer.write r data_in) refl array,
        )
      ]
    ]
  ]

  sound_array : (d : Device) → IsSound d → length d.ports ≡ 256
  sound_array d (closed none_open array) = array
  sound_array d (opened r has_ring array) = array

  -- Take a device that is closed or has a ring buffer, with its 256 pointers to ports, and memory for
  -- whatever `jack_ringbuffer_create` and `calloc` are asked for. Then `jack_open` for a format below 8
  -- and at most 256 channels, `jack_close` and `jack_write` never fault, whatever the server answers,
  -- and they leave such a device.
  pub operations-IsSound :
      (d : Device) (name : List ℕ) (dir : Direction) (buffer_size : ℕ) (c : StreamConfig)
      (data_in : List ℕ)
      → ((n : ℕ) → (r : Ring) × (ringbuffer.create n ≡ some r))
      → ((w : World) (n : ℕ) → jack.calloc w n ≡ true)
      → c.bit_fmt < 8
      → c.nb_channels ≤ 256
      → IsSound d
      → Succeeds (jack_open jack ringbuffer d name dir buffer_size c)
        × IsSound (jack_close jack ringbuffer d).1
        × Succeeds (jack_write jack ringbuffer d data_in)
  unfolding jack_open
  operations-IsSound d name dir buffer_size c data_in creates has_memory format few sound = (
    open_client_lem creates has_memory d.client d name buffer_size c format few
        (sound_array d sound),
    close-IsSound d (sound_array d sound),
    write_lem d data_in sound,
  )
