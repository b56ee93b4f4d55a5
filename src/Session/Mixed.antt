-- ===== src/Session/Mixed.antt =====
-- The receptor's loop where packets that are not of its stream arrive between those that are.
use vban.Prelude.{
  still_running, ℕ, suc, ◌+◌, ◌≤◌, ◌<◌, ◌≡◌, ◌≢◌, refl, ap, ◌∙◌, arith, List, [], ◌∷◌, some, true,
  false, length, get_elem?,
}
use vban.Prelude.Int.{ℤ, pos, is_negative}
use vban.Prelude.Memory.{IsBytes, splice, length-splice, splice-IsBytes}
use vban.Prelude.CString.{strncmp_eq}
use vban.Vban.{bit_resolution_size}
use vban.Stream.{StreamConfig}
use vban.Packet.{packet_check}
use vban.Packet.Datagrams.{Datagram, IsDatagram, bytes_of}
use vban.Socket.{Net, Socket, datagram}
use vban.Audio.{Audio, audio_set_stream_config}
use vban.Audio.Streams.{set_stream_same}
use vban.Audio.Interface.{Backend, BackendLaws}
use vban.Receptor.{Receptor, handle_packet, on_read, receptor_step, receptor_loop}
use vban.Receptor.Laws.{rejected}
use vban.Receptor.Loop.{IsBuffer}
use vban.Session.{write_all, Receives, all_received, receives}
use vban.Session.Playing.{socket_read_next, receptor_step_plays, received-IsBuffer}

-- A packet that arrives.
pub data Arrival : Type 0 where
  of_stream : Datagram → Arrival
  foreign : List ℕ → Arrival

abbrev pub arrived : List Arrival → List (List ℕ)
arrived [] = []
arrived (of_stream g ∷ xs) = bytes_of g ∷ arrived xs
arrived (foreign bytes ∷ xs) = bytes ∷ arrived xs

-- The audio in what arrives.
abbrev pub audio_of : List Arrival → List (List ℕ)
audio_of [] = []
audio_of (of_stream g ∷ xs) = g.block ∷ audio_of xs
audio_of (foreign bytes ∷ xs) = audio_of xs

-- A packet that `packet_check` does not accept, whatever the buffer held before.
pub record IsForeign (name bytes : List ℕ) : Type 0 where
  pub fits : length bytes ≤ 1464
  pub is_bytes : IsBytes bytes
  pub refused :
      (dest : List ℕ)
      → IsBuffer dest
      → packet_check (some name) (some (splice dest 0 bytes)) (length bytes) ≢ pos 0

abbrev pub AreArrivals : List ℕ → StreamConfig → List Arrival → Type 0
AreArrivals name c [] = Unit {0}
AreArrivals name c (of_stream g ∷ xs) = IsDatagram name c g × AreArrivals name c xs
AreArrivals name c (foreign bytes ∷ xs) = IsForeign name bytes × AreArrivals name c xs

module _ {Device World : Type 0} (b : Backend Device) (net : Net World) (laws : BackendLaws b)
    (s : Socket) (is_open : 0 < s.fd) (name : List ℕ) (c : StreamConfig) (ss : ℕ)
    (sized : get_elem? bit_resolution_size c.bit_fmt ≡ some ss) where
  abbrev receptor : Audio Device → List ℕ → Receptor Device
  receptor a m = record { socket = some s; audio = some a; buffer = m }

  abbrev written : Audio Device → List ℕ → Audio Device
  written a block = record a { device = (b.write_data a.device block).1 }

  -- The audio object `a` after some packets, if it becomes `a'` when it is set to the stream.
  after : Audio Device → Audio Device → List Arrival → Audio Device
  after a a' [] = a
  after a a' (foreign bytes ∷ xs) = after a a' xs
  after a a' (of_stream g ∷ xs) = after (written a' g.block) (written a' g.block) xs

  after_same :
      (a : Audio Device) (xs : List Arrival)
      → after a a xs ≡ record a { device = write_all b a.device (audio_of xs) }
  unfolding after write_all
  after_same a [] = refl
  after_same a (foreign bytes ∷ xs) = after_same a xs
  after_same a (of_stream g ∷ xs) = after_same (written a g.block) xs

  after_some :
      (a a' : Audio Device) (xs : List Arrival)
      → audio_of xs ≢ []
      → after a a' xs ≡ record a' { device = write_all b a'.device (audio_of xs) }
  unfolding after write_all
  after_some a a' [] some_block = absurd (some_block refl)
  after_some a a' (foreign bytes ∷ xs) some_block = after_some a a' xs some_block
  after_some a a' (of_stream g ∷ xs) some_block = after_same (written a' g.block) xs

  receptor_step_passes :
      (fuel : ℕ) (a : Audio Device) (dest bytes : List ℕ) {w w' : World} {sender : List ℕ}
      → net.receive w s.fd 1464 ≡ (datagram sender bytes, w')
      → strncmp_eq 32 s.config.ip_address sender ≡ true
      → IsBuffer dest
      → IsForeign name bytes
      → receptor_step b net (suc fuel) name (receptor a dest) w
        ≡ some (true, receptor a (splice dest 0 bytes), w')
  unfolding receptor_step on_read handle_packet
  receptor_step_passes fuel a dest bytes arrives same buffer f =
      let few : length bytes ≤ length dest = omega (arith, buffer.0, f.fits) in
      rw (
        socket_read_next b net laws s is_open name c ss sized fuel dest bytes arrives same few,
        rejected name (splice dest 0 bytes) (length bytes) (f.refused dest buffer),
      )

  -- One round for each arrival.
  mixed_loop :
      (fuel : ℕ) (a a' : Audio Device) (code : ℤ) (dest : List ℕ) (xs : List Arrival) {w w' : World}
      → Receives net s w (arrived xs) w'
      → AreArrivals name c xs
      → IsBuffer dest
      → audio_set_stream_config b (some a) (some c) ≡ (code, some a')
      → is_negative code ≡ false
      → a'.stream ≡ c
      → a'.map.nb_channels ≡ 0
      → (dest' : List ℕ) × (receptor_loop b net (length xs) (suc fuel) name (receptor a dest) w
          ≡ some (still_running (receptor (after a a' xs) dest', w')))
  unfolding receptor_loop after
  mixed_loop fuel a a' code dest [] all_received valid buffer sets good stream no_map = (dest, refl)
  mixed_loop fuel a a' code dest (of_stream g ∷ xs) (receives arrives same later) valid buffer sets
        good stream no_map =
      let a1 = written a' g.block in
      let (dest', loops) =
        mixed_loop fuel a1 a1 (pos 0) (splice dest 0 (bytes_of g)) xs later valid.1
          (received-IsBuffer b net laws s is_open name c ss sized dest g buffer valid.0)
          (set_stream_same b a1 c stream) refl stream no_map in
      let steps =
        receptor_step_plays b net laws s is_open name c ss sized fuel a a' code dest g arrives same
          buffer valid.0 sets good stream no_map in
      (dest', rw steps loops)
  mixed_loop fuel a a' code dest (foreign bytes ∷ xs) (receives arrives same later) valid buffer
        sets good stream no_map =
      let few : 0 + length bytes ≤ length dest = omega (arith, buffer.0, valid.0.fits) in
      let (dest', loops) =
        mixed_loop fuel a a' code (splice dest 0 bytes) xs later valid.1
          (
            length-splice dest 0 bytes few ∙ buffer.0,
            splice-IsBytes dest 0 bytes few buffer.1 valid.0.is_bytes,
          )
          sets good stream no_map in
      let steps = receptor_step_passes fuel a dest bytes arrives same buffer valid.0 in
      (dest', rw steps loops)

  -- Some of the arrivals are of the stream.
  pub receptor_loop_mixed :
      (fuel : ℕ) (a a' : Audio Device) (code : ℤ) (dest : List ℕ) (xs : List Arrival) {w w' : World}
      → Receives net s w (arrived xs) w'
      → AreArrivals name c xs
      → audio_of xs ≢ []
      → IsBuffer dest
      → audio_set_stream_config b (some a) (some c) ≡ (code, some a')
      → is_negative code ≡ false
      → a'.stream ≡ c
      → a'.map.nb_channels ≡ 0
      → (dest' : List ℕ) × (receptor_loop b net (length xs) (suc fuel) name (receptor a dest) w
          ≡ some (
              still_running
                (receptor (record a' { device = write_all b a'.device (audio_of xs) }) dest', w')))
  receptor_loop_mixed fuel a a' code dest xs {w' = w'} received valid some_block buffer sets good
        stream no_map =
      let (dest', loops) =
        mixed_loop fuel a a' code dest xs received valid buffer sets good stream no_map in
      (
        dest',
        loops
            ∙ ap (λ last. some (still_running (receptor last dest', w')))
                (after_some a a' xs some_block),
      )
