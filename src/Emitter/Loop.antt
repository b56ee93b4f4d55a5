-- ===== src/Emitter/Loop.antt =====
-- The loop of the emitter as a whole, from the header that is prepared before it on.
use vban.Prelude.{
  ℕ, zero, suc, ◌+◌, ◌*◌, ◌%◌, ◌^◌, ◌≤◌, ◌≡◌, refl, ap, ◌∙◌, arith, Bool, false, not, inl, inr,
  Bool-cases, Progress, still_running, exited, List, Option, some, length, length-append,
  length-take, length-drop, length-replicate, take, drop, replicate, get_or-replicate, ◌++◌,
  get_elem?, get_elem?-some,
}
use vban.Prelude.Int.{ℤ, pos, negsuc, is_zero, is_negative}
use vban.Prelude.Memory.{
  IsBytes, slice, splice, splice-IsBytes, length-splice, drop-IsBytes, read_block_in,
}
use vban.Prelude.CString.{text_of}
use vban.Vban.{bit_resolution_size}
use vban.Vban.Header.{read_header}
use vban.Stream.{StreamConfig}
use vban.Packet.{frame_size, packet_check}
use vban.Packet.Config.{IsCarried}
use vban.Packet.Prepared.{IsPrepared}
use vban.Packet.Emit.{init_header-IsPrepared}
use vban.Packet.Content.{set_content-IsPrepared, payload-IsPrepared}
use vban.Packet.Payload.{max_payload_lem}
use vban.Socket.{Net, Socket, socket_write}
use vban.Audio.{Audio, audio_get_stream_config}
use vban.Audio.Reading.{audio_read_plain}
use vban.Audio.Interface.{Backend, BackendLaws}
use vban.Emitter.Laws.{same_length}
use vban.Emitter.{
  Emitter, EmitterConfig, send_packet, on_audio, emitter_step, emitter_loop, EmitterRun,
  release_emitter, run_emitter, prepare_emitter,
}

module _ {Device World : Type 0} (b : Backend Device) (net : Net World) (laws : BackendLaws b)
    (reads_bytes : (d : Device) (n : ℕ) → IsBytes (b.read_data d n).1) (name : List ℕ)
    (c : StreamConfig) (ss max_size : ℕ) (fits : max_size ≤ 1436)
    (sized : get_elem? bit_resolution_size c.bit_fmt ≡ some ss) where
  -- The buffer of the emitter: it is prepared for the stream.
  abbrev IsOutgoing : List ℕ → Type 0
  IsOutgoing m = IsPrepared name c m × (length m ≡ 1464)

  -- The emitter between two rounds.
  data IsOngoing : Emitter Device → Type 0 where
    ongoing :
        (s : Option Socket) (a : Audio Device) (m : List ℕ)
        → IsOutgoing m
        → a.stream ≡ c
        → a.map.nb_channels ≡ 0
        → IsOngoing (record { socket = s; audio = some a; buffer = m })

  send_packet-IsOngoing :
      (s : Option Socket) (a : Audio Device) (m : List ℕ) (size : ℕ) (w : World)
      → IsOutgoing m
      → a.stream ≡ c
      → a.map.nb_channels ≡ 0
      → size ≤ max_size
      → (go : Bool) × (ret : ℤ) × (e' : Emitter Device) × (w' : World) × (send_packet net name
            (record { socket = s; audio = some a; buffer = m })
            size
            w
          ≡ some (go, ret, e', w'))
        × IsOngoing e'
  unfolding send_packet
  send_packet-IsOngoing s a m size w (p, long) stream no_map small =
      let (m', sets, p', same) = set_content-IsPrepared name m c size p in
      let checked = packet_check (some name) (some m') (size + 28) in
      let e' : Emitter Device = record { socket = s; audio = some a; buffer = m' } in
      let later = ongoing s a m' (p', same ∙ long) stream no_map in
      let sent = socket_write net s (some (slice m' 0 (size + 28))) w in
      elim (Bool-cases (is_zero checked)) [
        | inl valid ↦ (
          not (is_negative sent.0),
          sent.0,
          e',
          sent.1,
          rw (sets, valid, read_block_in m' 0 (size + 28) (omega (arith, same, long, fits))) refl,
          later,
        )
        | inr invalid ↦ (false, checked, e', w, rw (sets, invalid) refl, later)
      ]

  on_audio-IsOngoing :
      (ret got : ℤ) (s : Option Socket) (a : Audio Device) (m : List ℕ) (w : World)
      → IsOutgoing m
      → a.stream ≡ c
      → a.map.nb_channels ≡ 0
      → ((n : ℕ) → got ≡ pos n → n ≤ max_size)
      → (go : Bool) × (ret' : ℤ) × (e' : Emitter Device) × (w' : World) × (on_audio net name ret
            (record { socket = s; audio = some a; buffer = m })
            got
            w
          ≡ some (go, ret', e', w'))
        × IsOngoing e'
  unfolding on_audio
  on_audio-IsOngoing ret (negsuc k) s a m w out stream no_map small =
      (false, ret, _, w, refl, ongoing s a m out stream no_map)
  on_audio-IsOngoing ret (pos n) s a m w out stream no_map small =
      send_packet-IsOngoing s a m n w out stream no_map (small n refl)

  emitter_step-IsOngoing :
      (ret : ℤ) (e : Emitter Device) (w : World)
      → IsOngoing e
      → (go : Bool) × (ret' : ℤ) × (e' : Emitter Device) × (w' : World) × (emitter_step b net name
            max_size ret e w
          ≡ some (go, ret', e', w'))
        × IsOngoing e'
  unfolding emitter_step
  emitter_step-IsOngoing ret e w (ongoing s a m (p, long) stream no_map) =
      let (got, bytes, device) = b.read_data a.device max_size in
      let behind = drop 28 m in
      let counted : length behind ≡ 1436 = omega (arith, length-drop 28 m, long) in
      let few : 0 + length bytes ≤ length behind =
        omega (arith, laws.read_fits a.device max_size, counted, fits) in
      let reads =
        audio_read_plain b a behind max_size ss laws
          (ap (λ s. get_elem? bit_resolution_size s.bit_fmt) stream ∙ sized) no_map
          (omega (arith, counted, fits)) in
      let payload = splice behind 0 bytes in
      let payload_bytes =
        splice-IsBytes behind 0 bytes few (drop-IsBytes 28 m p.bytes)
          (reads_bytes a.device max_size) in
      let out : IsOutgoing (take 28 m ++ payload) = (
        payload-IsPrepared name m payload c p payload_bytes,
        omega (
          arith,
          length-append (take 28 m) payload,
          length-take 28 m,
          length-splice behind 0 bytes few,
          counted,
          long,
        ),
      ) in
      let (go, ret', e', w', handles, later) =
        on_audio-IsOngoing ret got s (record a { device = device }) (take 28 m ++ payload) w out
          stream no_map
          (λ n e.
            omega
              (arith, laws.read_count a.device max_size n e, laws.read_fits a.device max_size)) in
      (go, ret', e', w', rw reads handles, later)

  emitter_loop-ends :
      (rounds : ℕ) (ret : ℤ) (e : Emitter Device) (w : World)
      → IsOngoing e
      → (p : Progress (ℤ × Emitter Device × World) (ℤ × Emitter Device × World)) × (emitter_loop b
            net rounds name max_size ret e w
          ≡ some p)
  unfolding emitter_loop
  emitter_loop-ends zero ret e w running = (still_running (ret, e, w), refl)
  emitter_loop-ends (suc rounds) ret e w running =
      let (go, ret', e', w', steps, later) = emitter_step-IsOngoing ret e w running in
      let (p, loops) = emitter_loop-ends rounds ret' e' w' later in
      elim (Bool-cases go) [
        | inl going ↦ (p, rw (steps, going) loops)
        | inr over ↦ (exited (ret', e', w'), rw (steps, over) refl)
      ]

pub stream_plain :
    {Device : Type 0} (a : Audio Device)
    → a.map.nb_channels ≡ 0
    → (audio_get_stream_config (some a)).1 ≡ some a.stream
unfolding audio_get_stream_config
stream_plain a no_map = ground (arith, no_map)

module _ {Device World : Type 0} (b : Backend Device) (net : Net World) (laws : BackendLaws b)
    (reads_bytes : (d : Device) (n : ℕ) → IsBytes (b.read_data d n).1) where
  run_emitter-ends :
      (rounds : ℕ) (name m : List ℕ) (max_size : ℕ) (s : Option Socket) (a : Audio Device)
      (w : World)
      → IsCarried a.stream
      → a.map.nb_channels ≡ 0
      → IsPrepared name a.stream m
      → length m ≡ 1464
      → max_size ≤ 1436
      → (p : EmitterRun b net) × (run_emitter b net rounds name max_size
            (record { socket = s; audio = some a; buffer = m })
            w
          ≡ some p)
  unfolding run_emitter
  run_emitter-ends rounds name m max_size s a w carried no_map p long fits =
      let (ss, sized) =
        get_elem?-some bit_resolution_size a.stream.bit_fmt (omega (arith, carried.format)) in
      let (p, loops) =
        emitter_loop-ends b net laws reads_bytes name a.stream ss max_size fits sized rounds (pos 0)
          (record { socket = s; audio = some a; buffer = m }) w
          (ongoing s a m (p, long) refl no_map) in
      (release_emitter b net p, rw loops refl)

  -- Take a backend that keeps its contract and reads bytes, and an audio object without a channel map
  -- whose stream the protocol can carry. Under a name of at most 15 characters the emitter prepares its
  -- header and runs for any number of rounds without a fault, whatever the backend reads and whatever
  -- the network answers.
  pub prepare_emitter_lem :
      (rounds : ℕ) (config : EmitterConfig) (s : Option Socket) (a : Audio Device) (w : World)
      → IsCarried a.stream
      → a.map.nb_channels ≡ 0
      → IsBytes config.stream_name
      → length (text_of config.stream_name) ≤ 15
      → (p : EmitterRun b net) × (prepare_emitter b net rounds config s (some a) w ≡ some p)
  unfolding prepare_emitter
  prepare_emitter_lem rounds config s a w carried no_map name_bytes short =
      let name = config.stream_name in
      let zeros : List ℕ = replicate 1464 0 in
      let zeros_long : length zeros ≡ 1464 = length-replicate {A = ℕ} 1464 0 in
      let (m, prepares, p, counts, same) =
        init_header-IsPrepared zeros name a.stream (λ i. rw get_or-replicate (omega arith))
          (omega (arith, zeros_long)) name_bytes carried short (get_or-replicate 1464 23 0) in
      let (frames, sizes, le, fits, most) =
        max_payload_lem m (omega (arith, p.announces.format, carried.format)) in
      let long : length m ≡ 1464 =
        same_length zeros m (omega (arith, zeros_long)) p.room same ∙ zeros_long in
      let whole : frames * frame_size (read_header m) % 2 ^ 64
          ≡ frames * frame_size (read_header m) =
        omega (arith, fits) in
      let (p', runs) =
        run_emitter-ends rounds name m (frames * frame_size (read_header m)) s a w carried no_map p
          long fits in
      (p', rw (stream_plain a no_map, prepares, sizes, whole) runs)
