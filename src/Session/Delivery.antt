-- ===== src/Session/Delivery.antt =====
-- The emitter's loop and the receptor's loop, and the datagrams of one stream that may arrive.
use vban.Prelude.{
  still_running, ℕ, suc, ◌≤◌, ◌<◌, ◌≡◌, refl, ap, ◌∙◌, arith, List, [], ◌∷◌, some, false, length,
}
use vban.Prelude.Int.{ℤ, is_negative}
use mathlib.Core.List.{Memᴰ}
use vban.Vban.Header.{Header, IsHeader, read_header}
use vban.Stream.{StreamConfig}
use vban.Packet.{content_fields}
use vban.Packet.Check.{sample_size_of}
use vban.Packet.Prepared.{Announces, IsPrepared, content_fields-IsHeader, content_fields-Announces}
use vban.Packet.Datagrams.{
  Datagram, IsDatagram, AreBlocks, AreDatagrams, contents, blocks_of, datagrams, next-IsDatagram,
}
use vban.Socket.{Net, Socket}
use vban.Audio.{Audio, audio_set_stream_config}
use vban.Audio.Streams.{set_stream_done}
use vban.Audio.Interface.{Backend, BackendLaws}
use vban.Emitter.{emitter_loop}
use vban.Receptor.{receptor_loop}
use vban.Receptor.Laws.{sizes_found}
use vban.Receptor.Loop.{IsBuffer}
use vban.Session.{Reads, Sends, Receives, write_all}
use vban.Session.Sending.{emitter_loop-Sends}
use vban.Session.Mixed.{Arrival, of_stream, foreign, IsForeign, AreArrivals}
use vban.Session.Playing.{receptor_loop_opens}

-- What arrives of the stream is drawn from what was sent: datagrams may be lost, doubled, or overtake
-- others. Between them other packets may arrive.
abbrev pub AreDrawn : List ℕ → List Arrival → List Datagram → Type 0
AreDrawn name [] sent = Unit {0}
AreDrawn name (of_stream g ∷ xs) sent = Memᴰ g sent × AreDrawn name xs sent
AreDrawn name (foreign bytes ∷ xs) sent = IsForeign name bytes × AreDrawn name xs sent

module _ (name : List ℕ) (c : StreamConfig) where
  pub datagrams-AreDatagrams :
      (h : Header) (blocks : List (List ℕ))
      → Announces name c h
      → IsHeader h
      → AreBlocks c blocks
      → AreDatagrams name c (datagrams h blocks)
  datagrams-AreDatagrams h [] a v valid = tt
  datagrams-AreDatagrams h (block ∷ blocks) a v valid =
      let n = length block in
      (
        next-IsDatagram name c h block a v valid.0,
        datagrams-AreDatagrams (content_fields h n) blocks (content_fields-Announces name c h n a)
            (content_fields-IsHeader h n v) valid.1,
      )

  AreDatagrams-mem :
      (g : Datagram) (gs : List Datagram) → Memᴰ g gs → AreDatagrams name c gs → IsDatagram name c g
  AreDatagrams-mem g [] m valid = elim m [ ]
  AreDatagrams-mem g (x ∷ gs) (Memᴰ.head e) valid = rw e valid.0
  AreDatagrams-mem g (x ∷ gs) (Memᴰ.tail m) valid = AreDatagrams-mem g gs m valid.1

  pub AreDrawn-AreArrivals :
      (xs : List Arrival) (sent : List Datagram)
      → AreDrawn name xs sent
      → AreDatagrams name c sent
      → AreArrivals name c xs
  AreDrawn-AreArrivals [] sent drawn valid = tt
  AreDrawn-AreArrivals (of_stream g ∷ xs) sent drawn valid =
      (AreDatagrams-mem g sent drawn.0 valid, AreDrawn-AreArrivals xs sent drawn.1 valid)
  AreDrawn-AreArrivals (foreign bytes ∷ xs) sent drawn valid =
      (drawn.0, AreDrawn-AreArrivals xs sent drawn.1 valid)

pub blocks_of-datagrams :
    (h : Header) (blocks : List (List ℕ)) → blocks_of (datagrams h blocks) ≡ blocks
blocks_of-datagrams h [] = refl
blocks_of-datagrams h (block ∷ blocks) =
    ap (λ l. block ∷ l) (blocks_of-datagrams (content_fields h (length block)) blocks)

pub length-datagrams :
    (h : Header) (blocks : List (List ℕ)) → length (datagrams h blocks) ≡ length blocks
length-datagrams h [] = refl
length-datagrams h (block ∷ blocks) =
    ap suc (length-datagrams (content_fields h (length block)) blocks)

-- The emitter between two rounds: its buffer is prepared for the stream, which its audio object has.
pub record IsEmitting {Microphone : Type 0} (name : List ℕ) (c : StreamConfig) (max_size : ℕ)
    (a : Audio Microphone) (m : List ℕ) : Type 0 where
  pub prepared : IsPrepared name c m
  pub long : length m ≡ 1464
  pub fits : max_size ≤ 1436
  pub stream : a.stream ≡ c
  pub no_map : a.map.nb_channels ≡ 0

-- The receptor between two rounds: its socket is open, and its device takes the parameters of the
-- stream, with which the audio object becomes `t'`.
pub record IsReceiving {Speaker : Type 0} (b : Backend Speaker) (s : Socket) (c : StreamConfig)
    (t t' : Audio Speaker) (dest : List ℕ) : Type 0 where
  pub is_open : 0 < s.fd
  pub buffer : IsBuffer dest
  pub code : ℤ
  pub sets : audio_set_stream_config b (some t) (some c) ≡ (code, some t')
  pub good : is_negative code ≡ false
  pub no_map : t.map.nb_channels ≡ 0

module _ {Microphone World : Type 0} (b : Backend Microphone) (net : Net World)
    (laws : BackendLaws b) (s : Socket) (name : List ℕ) (c : StreamConfig) (max_size : ℕ) where
  pub emits :
      {d' : Microphone} {blocks : List (List ℕ)} {w w' : World} (ret : ℤ) (a : Audio Microphone)
      (m : List ℕ)
      → IsEmitting name c max_size a m
      → AreBlocks c blocks
      → Reads b max_size a.device blocks d'
      → Sends net s w (contents (datagrams (read_header m) blocks)) w'
      → (ret' : ℤ) × (m' : List ℕ) × (emitter_loop b net
            (length blocks)
            name
            max_size
            ret
            (record { socket = some s; audio = some a; buffer = m })
            w
          ≡ some (
              still_running (
                ret',
                record { socket = some s; audio = some (record a { device = d' }); buffer = m' },
                w',
              )))
        × IsEmitting name c max_size (record a { device = d' }) m'
  emits ret a m e valid read sent =
      let (ret', m', loops, p', long') =
        emitter_loop-Sends b net laws s name c (sample_size_of c.bit_fmt) max_size e.fits
          (sizes_found c.bit_fmt e.prepared.announces.has_size) (read_header m) ret a m read sent
          valid refl e.prepared refl e.long e.stream e.no_map in
      (
        ret',
        m',
        loops,
        record { prepared = p'; long = long'; fits = e.fits; stream = e.stream; no_map = e.no_map },
      )

module _ {Speaker Space : Type 0} (b : Backend Speaker) (net : Net Space) (laws : BackendLaws b)
    (s : Socket) (name : List ℕ) (c : StreamConfig) (fuel : ℕ) where
  pub plays :
      (t t' : Audio Speaker) (dest : List ℕ) (g : Datagram) (gs : List Datagram) {v v' : Space}
      → IsReceiving b s c t t' dest
      → AreDatagrams name c (g ∷ gs)
      → Receives net s v (contents (g ∷ gs)) v'
      → (dest' : List ℕ) × (receptor_loop b net
            (suc (length gs))
            (suc fuel)
            name
            (record { socket = some s; audio = some t; buffer = dest })
            v
          ≡ some (
              still_running (
                record {
                  socket = some s;
                  audio = some (record t' { device = write_all b t'.device (blocks_of (g ∷ gs)) });
                  buffer = dest';
                },
                v',
              )))
  plays t t' dest g gs r valid received =
      let announced = valid.0.announces in
      let (stream, same_map, _) =
        set_stream_done b t t' c r.code (omega (arith, announced.channels)) r.sets r.good in
      receptor_loop_opens b net laws s r.is_open name c (sample_size_of c.bit_fmt)
        (sizes_found c.bit_fmt announced.has_size) fuel t t' r.code dest g gs received valid
        r.buffer r.sets r.good stream (ap (λ m. m.nb_channels) same_map ∙ r.no_map)
