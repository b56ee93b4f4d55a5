-- ===== src/Session/Run.antt =====
-- Runs of both programs, from the header that the emitter prepares, over the blocks that it sends.
use vban.Prelude.{
  still_running, ℕ, suc, ◌*◌, ◌%◌, ◌^◌, ◌≤◌, ◌≡◌, ◌≢◌, [], refl, sym, ap, ◌∙◌, arith, List, ◌∷◌,
  some, some_inj, length, length-replicate, replicate, get_or-replicate,
}
use vban.Prelude.Int.{ℤ, pos, negsuc}
use vban.Prelude.Memory.{IsBytes}
use vban.Prelude.CString.{text_of}
use vban.Vban.Header.{read_header}
use vban.Stream.{StreamConfig}
use vban.Vban.Header.Laws.{read_header-IsHeader}
use vban.Packet.{content_fields, frame_size, packet_init_header, packet_get_max_payload_size}
use vban.Packet.Config.{IsCarried}
use vban.Packet.Prepared.{IsPrepared}
use vban.Packet.Emit.{init_header-IsPrepared}
use vban.Packet.Payload.{max_payload_lem}
use vban.Packet.Datagrams.{AreBlocks, Datagram, AreDatagrams, blocks_of, contents, datagrams}
use vban.Socket.{Net, Socket}
use vban.Audio.{Audio}
use vban.Audio.Interface.{Backend, BackendLaws}
use vban.Emitter.{EmitterConfig, run_emitter, prepare_emitter}
use vban.Emitter.Laws.{same_length}
use vban.Emitter.Loop.{stream_plain}
use vban.Receptor.{receptor_loop, run_receptor}
use vban.Audio.Streams.{set_stream_done}
use vban.Packet.Check.{sample_size_of}
use vban.Receptor.Laws.{sizes_found}
use vban.Session.Mixed.{Arrival, arrived, audio_of, receptor_loop_mixed}
use vban.Session.{Reads, Sends, Receives, write_all}
use vban.Session.Delivery.{
  AreDrawn, IsEmitting, IsReceiving, datagrams-AreDatagrams, AreDrawn-AreArrivals,
  blocks_of-datagrams, length-datagrams, emits, plays,
}

-- The emitter's buffer once its header is written, and the size of a read.
pub record IsStarting (name : List ℕ) (c : StreamConfig) (m : List ℕ) (max_size : ℕ) : Type 0 where
  pub written : packet_init_header (some (replicate 1464 0)) (some c) name ≡ (pos 0, some m)
  pub size : packet_get_max_payload_size (some m) ≡ some (pos max_size)

pos_inj : (i j : ℕ) → pos i ≡ pos j → i ≡ j
pos_inj i j e = ap (λ (z : ℤ). elim z [ pos n ↦ n | negsuc n ↦ 0 ]) e

module _ (name : List ℕ) (c : StreamConfig) (carried : IsCarried c) (name_bytes : IsBytes name)
    (short : length (text_of name) ≤ 15) where
  starting-IsPrepared :
      (m : List ℕ) (max_size : ℕ)
      → IsStarting name c m max_size
      → IsPrepared name c m × (length m ≡ 1464) × (max_size ≤ 1436)
  starting-IsPrepared m max_size start =
      let zeros : List ℕ = replicate 1464 0 in
      let zeros_long : length zeros ≡ 1464 = length-replicate {A = ℕ} 1464 0 in
      let (m', prepares, p, _, same) =
        init_header-IsPrepared zeros name c (λ i. rw get_or-replicate (omega arith))
          (omega (arith, zeros_long)) name_bytes carried short (get_or-replicate 1464 23 0) in
      let here : m' ≡ m = some_inj (ap (λ r. r.1) (sym prepares ∙ start.written)) in
      let (frames, sizes, _, fits, _) =
        max_payload_lem m' (omega (arith, p.announces.format, carried.format)) in
      let long : length m' ≡ 1464 =
        same_length zeros m' (omega (arith, zeros_long)) p.room same ∙ zeros_long in
      let sizes' : packet_get_max_payload_size (some m') ≡ some (pos max_size) =
        rw here start.size in
      let size_lem : frames * frame_size (read_header m') ≡ max_size =
        pos_inj (frames * frame_size (read_header m')) max_size (some_inj (sym sizes ∙ sizes')) in
      let done : IsPrepared name c m' × (length m' ≡ 1464) × (max_size ≤ 1436) =
        (p, long, omega (arith, size_lem, fits)) in
      rw here at done

module _ {Microphone World : Type 0} (b : Backend Microphone) (net : Net World)
    (laws : BackendLaws b) (s : Socket) where
  -- The emitter prepares its header, sends a datagram for each block, and is ready for the next one.
  prepare_emitter-Sends :
      {d' : Microphone} {w w' : World} (config : EmitterConfig) (blocks : List (List ℕ))
      (a : Audio Microphone) (m : List ℕ) (max_size : ℕ)
      → IsCarried a.stream
      → a.map.nb_channels ≡ 0
      → IsBytes config.stream_name
      → length (text_of config.stream_name) ≤ 15
      → IsStarting config.stream_name a.stream m max_size
      → AreBlocks a.stream blocks
      → Reads b max_size a.device blocks d'
      → Sends net s w (contents (datagrams (read_header m) blocks)) w'
      → (ret : ℤ) × (m' : List ℕ) × (prepare_emitter b net
            (length blocks)
            config
            (some s)
            (some a)
            w
          ≡ some (
              still_running (
                ret,
                record { socket = some s; audio = some (record a { device = d' }); buffer = m' },
                w',
              )))
        × IsEmitting config.stream_name a.stream max_size (record a { device = d' }) m'
  unfolding prepare_emitter run_emitter
  prepare_emitter-Sends config blocks a m max_size carried no_map name_bytes short start valid read
        sent =
      let name = config.stream_name in
      let (p, long, fits) =
        starting-IsPrepared name a.stream carried name_bytes short m max_size start in
      let whole : max_size % 2 ^ 64 ≡ max_size = omega (arith, fits) in
      let (ret, m', loops, later) =
        emits b net laws s name a.stream max_size (pos 0) a m
          (record { prepared = p; long = long; fits = fits; stream = refl; no_map = no_map }) valid
          read sent in
      (ret, m', rw (stream_plain a no_map, start.written, start.size, whole, loops) refl, later)

module _ {Speaker Space : Type 0} (b : Backend Speaker) (net : Net Space) (laws : BackendLaws b)
    (s : Socket) (name : List ℕ) (c : StreamConfig) (fuel : ℕ) where
  run_receptor-plays :
      (t t' : Audio Speaker) (dest : List ℕ) (g : Datagram) (gs : List Datagram) {v v' : Space}
      → IsReceiving b s c t t' dest
      → AreDatagrams name c (g ∷ gs)
      → Receives net s v (contents (g ∷ gs)) v'
      → (dest' : List ℕ) × (run_receptor b net
            (suc (length gs))
            (suc fuel)
            name
            (record { socket = some s; audio = some t; buffer = dest })
            v
          ≡ some (
              still_running (
                record {
                  socket = some s;
                  audio = some (record t' { device = write_all b t'.device (blocks_of (g ∷ gs)) });
                  buffer = dest';
                },
                v',
              )))
  unfolding run_receptor
  run_receptor-plays t t' dest g gs r valid received =
      let (dest', played) = plays b net laws s name c fuel t t' dest g gs r valid received in
      (dest', rw played)

  -- The loop over what is drawn from the datagrams of a stream.
  pub drawn_loops :
      {v v' : Space} (m : List ℕ) (blocks : List (List ℕ)) (xs : List Arrival)
      (t t' : Audio Speaker) (dest : List ℕ)
      → IsPrepared name c m
      → AreBlocks c blocks
      → AreDrawn name xs (datagrams (read_header m) blocks)
      → audio_of xs ≢ []
      → IsReceiving b s c t t' dest
      → Receives net s v (arrived xs) v'
      → (dest' : List ℕ) × (receptor_loop b net
            (length xs)
            (suc fuel)
            name
            (record { socket = some s; audio = some t; buffer = dest })
            v
          ≡ some (
              still_running (
                record {
                  socket = some s;
                  audio = some (record t' { device = write_all b t'.device (audio_of xs) });
                  buffer = dest';
                },
                v',
              )))
  drawn_loops m blocks xs t t' dest p valid drawn some_block r received =
      let sent =
        datagrams-AreDatagrams name c (read_header m) blocks p.announces
          (read_header-IsHeader m p.bytes p.room) valid in
      let (stream, same_map, _) =
        set_stream_done b t t' c r.code (omega (arith, p.announces.channels)) r.sets r.good in
      let (dest', loops) =
        receptor_loop_mixed b net laws s r.is_open name c (sample_size_of c.bit_fmt)
          (sizes_found c.bit_fmt p.announces.has_size) fuel t t' r.code dest xs received
          (AreDrawn-AreArrivals name c xs (datagrams (read_header m) blocks) drawn sent) some_block
          r.buffer r.sets r.good stream (ap (λ m. m.nb_channels) same_map ∙ r.no_map) in
      (dest', loops)

  -- Of the datagrams for blocks of 1 to 256 whole frames some reach the receptor, at least one, in any
  -- order and any number of times, and between them packets of the same address that `packet_check`
  -- does not accept. Its device takes the parameters, and no map is set. Then, after one round for each
  -- arrival, the receptor is still running, the network is as the arrivals left it, and the blocks of
  -- exactly the datagrams that arrived were written to the device, in the order of arrival.
  pub drawn_lem :
      {v v' : Space} (m : List ℕ) (blocks : List (List ℕ)) (xs : List Arrival)
      (t t' : Audio Speaker) (dest : List ℕ)
      → IsPrepared name c m
      → AreBlocks c blocks
      → AreDrawn name xs (datagrams (read_header m) blocks)
      → audio_of xs ≢ []
      → IsReceiving b s c t t' dest
      → Receives net s v (arrived xs) v'
      → (dest' : List ℕ) × (run_receptor b net
            (length xs)
            (suc fuel)
            name
            (record { socket = some s; audio = some t; buffer = dest })
            v
          ≡ some (
              still_running (
                record {
                  socket = some s;
                  audio = some (record t' { device = write_all b t'.device (audio_of xs) });
                  buffer = dest';
                },
                v',
              )))
  unfolding run_receptor
  drawn_lem m blocks xs t t' dest p valid drawn some_block r received =
      let (dest', loops) = drawn_loops m blocks xs t t' dest p valid drawn some_block r received in
      (dest', rw loops)

module _ {Microphone Speaker World Space : Type 0} (b : Backend Microphone) (net : Net World)
    (laws : BackendLaws b) (s : Socket) (b' : Backend Speaker) (net' : Net Space)
    (laws' : BackendLaws b') (s' : Socket) (fuel : ℕ) where
  -- The emitter's audio object is set to a stream that the protocol can carry, under a name of at most 15
  -- characters. Its backend reads blocks of 1 to 256 whole frames in turn, the network takes each
  -- datagram, and these reach the receptor in the same order, from the address it expects. The
  -- receptor's device takes the parameters, and no map is set on either side. Then, after one round for
  -- each block, both programs are still running, the emitter with its buffer prepared for the next
  -- block, and the blocks were written to the receptor's device in turn.
  pub session_lem :
      {d' : Microphone} {w w' : World} {v v' : Space} (config : EmitterConfig) (block : List ℕ)
      (blocks : List (List ℕ)) (a : Audio Microphone) (m : List ℕ) (max_size : ℕ)
      (t t' : Audio Speaker) (dest : List ℕ)
      → IsCarried a.stream
      → a.map.nb_channels ≡ 0
      → IsBytes config.stream_name
      → length (text_of config.stream_name) ≤ 15
      → IsStarting config.stream_name a.stream m max_size
      → AreBlocks a.stream (block ∷ blocks)
      → Reads b max_size a.device (block ∷ blocks) d'
      → Sends net s w (contents (datagrams (read_header m) (block ∷ blocks))) w'
      → IsReceiving b' s' a.stream t t' dest
      → Receives net' s' v (contents (datagrams (read_header m) (block ∷ blocks))) v'
      → ((ret : ℤ) × (m' : List ℕ) × (prepare_emitter b net
              (suc (length blocks))
              config
              (some s)
              (some a)
              w
            ≡ some (
                still_running (
                  ret,
                  record { socket = some s; audio = some (record a { device = d' }); buffer = m' },
                  w',
                )))
          × IsEmitting config.stream_name a.stream max_size (record a { device = d' }) m')
        × ((dest' : List ℕ) × (run_receptor b' net'
                (suc (length blocks))
                (suc fuel)
                config.stream_name
                (record { socket = some s'; audio = some t; buffer = dest })
                v
              ≡ some (
                  still_running (
                    record {
                      socket = some s';
                      audio = some (record t' { device = write_all b' t'.device (block ∷ blocks) });
                      buffer = dest';
                    },
                    v',
                  ))))
  session_lem {v' = v'} config block blocks a m max_size t t' dest carried no_map name_bytes short
        start valid read sent r received =
      let name = config.stream_name in
      let c = a.stream in
      let (p, _, _) = starting-IsPrepared name c carried name_bytes short m max_size start in
      let h = read_header m in
      let h' = content_fields h (length block) in
      let gs = datagrams h' blocks in
      let (dest', played) =
        run_receptor-plays b' net' laws' s' name c fuel t t' dest
          (record { header = h'; block = block }) gs r
          (datagrams-AreDatagrams name c h (block ∷ blocks) p.announces
            (read_header-IsHeader m p.bytes p.room) valid)
          received in
      (
        prepare_emitter-Sends b net laws s config (block ∷ blocks) a m max_size carried no_map
            name_bytes short start valid read sent,
        (
          dest',
          rw (sym (length-datagrams h' blocks)) played
              ∙ ap
                  (λ l. some (
                    still_running (
                      record {
                        socket = some s';
                        audio = some (record t' { device = write_all b' t'.device (block ∷ l) });
                        buffer = dest';
                      },
                      v',
                    )))
                  (blocks_of-datagrams h' blocks),
        ),
      )
