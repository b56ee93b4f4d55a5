-- ===== src/Session/Playing.antt =====
-- The receptor's loop over datagrams of its stream.
use vban.Prelude.{
  still_running, ℕ, suc, ◌+◌, ◌≤◌, ◌<◌, ◌≡◌, refl, ap, ◌∙◌, arith, List, [], ◌∷◌, some, true, false,
  length, get_elem?,
}
use vban.Prelude.Int.{ℤ, pos, is_negative}
use vban.Prelude.Memory.{splice, length-splice}
use vban.Vban.{bit_resolution_size}
use vban.Stream.{StreamConfig}
use vban.Packet.Emit.{get_config_prepared}
use vban.Packet.Datagrams.{
  Datagram, IsDatagram, AreDatagrams, bytes_of, contents, blocks_of, received_checked,
  received-IsPrepared, received_block, length-bytes_of,
}
use vban.Socket.{Net, Socket, datagram, socket_read}
use vban.Prelude.CString.{strncmp_eq}
use vban.Socket.Receiving.{done, socket_read_delivers}
use vban.Audio.{Audio, audio_set_stream_config}
use vban.Audio.Streams.{set_stream_same}
use vban.Audio.Interface.{Backend, BackendLaws}
use vban.Receptor.{Receptor, handle_packet, on_read, receptor_step, receptor_loop}
use vban.Receptor.Laws.{play_writes}
use vban.Receptor.Loop.{IsBuffer}
use vban.Session.{write_all, Receives, all_received, receives}

module _ {Device World : Type 0} (b : Backend Device) (net : Net World) (laws : BackendLaws b)
    (s : Socket) (is_open : 0 < s.fd) (name : List ℕ) (c : StreamConfig) (ss : ℕ)
    (sized : get_elem? bit_resolution_size c.bit_fmt ≡ some ss) where
  abbrev receptor : Audio Device → List ℕ → Receptor Device
  receptor a m = record { socket = some s; audio = some a; buffer = m }

  -- The audio object after a block was written to its device.
  abbrev written : Audio Device → List ℕ → Audio Device
  written a block = record a { device = (b.write_data a.device block).1 }

  handle_packet_plays :
      (a a' : Audio Device) (ret : ℤ) (dest : List ℕ) (g : Datagram)
      → IsBuffer dest
      → IsDatagram name c g
      → audio_set_stream_config b (some a) (some c) ≡ (ret, some a')
      → is_negative ret ≡ false
      → a'.stream ≡ c
      → a'.map.nb_channels ≡ 0
      → handle_packet b name (receptor a (splice dest 0 (bytes_of g))) (length (bytes_of g))
        ≡ some (true, receptor (written a' g.block) (splice dest 0 (bytes_of g)))
  unfolding handle_packet
  handle_packet_plays a a' ret dest g (long, is_bytes) d sets good stream no_map =
      let m = splice dest 0 (bytes_of g) in
      let p = received-IsPrepared name c dest g d (omega (arith, long)) is_bytes in
      let checks = received_checked name c dest g d (omega (arith, long)) is_bytes in
      let few = length-bytes_of name c g d in
      let plays =
        play_writes b m (some s) a a' c ret (length (bytes_of g)) ss laws sets good
          (ap (λ t. get_elem? bit_resolution_size t.bit_fmt) stream ∙ sized) no_map
          (omega (
            arith,
            few,
            long,
            d.block.fits,
            length-splice dest 0 (bytes_of g) (omega (arith, few, long, d.block.fits)),
          ))
          (omega (arith, few, d.block.fits)) in
      rw (checks, get_config_prepared name m c _ p)
        (plays
          ∙ ap (λ l. some (true, receptor (written a' l) m))
              (received_block name c dest g d (omega (arith, long)) is_bytes))

  pub socket_read_next :
      (fuel : ℕ) (m bytes : List ℕ) {w w' : World} {sender : List ℕ}
      → net.receive w s.fd 1464 ≡ (datagram sender bytes, w')
      → strncmp_eq 32 s.config.ip_address sender ≡ true
      → length bytes ≤ length m
      → socket_read net (suc fuel) (some s) (some m) 1464 w
        ≡ some (pos (length bytes), some (splice m 0 bytes), w')
  socket_read_next fuel m bytes {w} arrives same fits =
      ap (λ f. socket_read net f (some s) (some m) 1464 w) (omega arith)
      ∙ socket_read_delivers net s 1464 fuel is_open done arrives same fits

  pub receptor_step_plays :
      (fuel : ℕ) (a a' : Audio Device) (ret : ℤ) (dest : List ℕ) (g : Datagram) {w w' : World}
      {sender : List ℕ}
      → net.receive w s.fd 1464 ≡ (datagram sender (bytes_of g), w')
      → strncmp_eq 32 s.config.ip_address sender ≡ true
      → IsBuffer dest
      → IsDatagram name c g
      → audio_set_stream_config b (some a) (some c) ≡ (ret, some a')
      → is_negative ret ≡ false
      → a'.stream ≡ c
      → a'.map.nb_channels ≡ 0
      → receptor_step b net (suc fuel) name (receptor a dest) w
        ≡ some (true, receptor (written a' g.block) (splice dest 0 (bytes_of g)), w')
  unfolding receptor_step on_read
  receptor_step_plays fuel a a' ret dest g arrives same buffer d sets good stream no_map =
      let few : length (bytes_of g) ≤ length dest =
        omega (arith, length-bytes_of name c g d, buffer.0, d.block.fits) in
      rw (
        socket_read_next fuel dest (bytes_of g) arrives same few,
        handle_packet_plays a a' ret dest g buffer d sets good stream no_map,
      )

  pub received-IsBuffer :
      (dest : List ℕ) (g : Datagram)
      → IsBuffer dest
      → IsDatagram name c g
      → IsBuffer (splice dest 0 (bytes_of g))
  received-IsBuffer dest g (long, is_bytes) d =
      let few : 0 + length (bytes_of g) ≤ length dest =
        omega (arith, length-bytes_of name c g d, long, d.block.fits) in
      (
        length-splice dest 0 (bytes_of g) few ∙ long,
        (received-IsPrepared name c dest g d (omega (arith, long)) is_bytes).bytes,
      )

  -- The device is set to the stream: each datagram that arrives is played.
  pub receptor_loop_plays :
      (fuel : ℕ) (a : Audio Device) (dest : List ℕ) (gs : List Datagram) {w w' : World}
      → Receives net s w (contents gs) w'
      → AreDatagrams name c gs
      → IsBuffer dest
      → a.stream ≡ c
      → a.map.nb_channels ≡ 0
      → (dest' : List ℕ) × (receptor_loop b net (length gs) (suc fuel) name (receptor a dest) w
          ≡ some (
              still_running
                (receptor (record a { device = write_all b a.device (blocks_of gs) }) dest', w')))
  unfolding receptor_loop write_all
  receptor_loop_plays fuel a dest [] all_received valid buffer stream no_map = (dest, refl)
  receptor_loop_plays fuel a dest (g ∷ gs) (receives arrives same rest) valid buffer stream no_map =
      let (dest', loops) =
        receptor_loop_plays fuel (written a g.block) (splice dest 0 (bytes_of g)) gs rest valid.1
          (received-IsBuffer dest g buffer valid.0) stream no_map in
      (
        dest',
        rw
            (receptor_step_plays fuel a a (pos 0) dest g arrives same buffer valid.0
              (set_stream_same b a c stream) refl stream no_map)
            loops,
      )

  -- The first datagram opens the device, unless it is open for the stream.
  pub receptor_loop_opens :
      (fuel : ℕ) (a a' : Audio Device) (ret : ℤ) (dest : List ℕ) (g : Datagram) (gs : List Datagram)
      {w w' : World}
      → Receives net s w (contents (g ∷ gs)) w'
      → AreDatagrams name c (g ∷ gs)
      → IsBuffer dest
      → audio_set_stream_config b (some a) (some c) ≡ (ret, some a')
      → is_negative ret ≡ false
      → a'.stream ≡ c
      → a'.map.nb_channels ≡ 0
      → (dest' : List ℕ) × (receptor_loop b net
            (suc (length gs))
            (suc fuel)
            name
            (receptor a dest)
            w
          ≡ some (
              still_running (
                receptor (record a' { device = write_all b a'.device (blocks_of (g ∷ gs)) }) dest',
                w',
              )))
  unfolding receptor_loop write_all
  receptor_loop_opens fuel a a' ret dest g gs (receives arrives same rest) valid buffer sets good
        stream no_map =
      let (dest', loops) =
        receptor_loop_plays fuel (written a' g.block) (splice dest 0 (bytes_of g)) gs rest valid.1
          (received-IsBuffer dest g buffer valid.0) stream no_map in
      (
        dest',
        rw
            (receptor_step_plays fuel a a' ret dest g arrives same buffer valid.0 sets good stream
              no_map)
            loops,
      )
