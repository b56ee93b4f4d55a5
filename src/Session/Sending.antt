-- ===== src/Session/Sending.antt =====
-- The emitter's loop over the blocks that its backend reads.
use vban.Prelude.{
  still_running, ℕ, ◌+◌, ◌≤◌, ◌≡◌, refl, sym, ap, ◌∙◌, arith, List, ◌++◌, some, true, false, length,
  length-append, length-take, length-drop, get_elem?, take, drop,
}
use vban.Prelude.Int.{ℤ, pos, is_negative}
use vban.Prelude.Memory.{
  slice, splice, take-append, drop-append, length-splice, splice-IsBytes, drop-IsBytes,
  read_block_in,
}
use vban.Vban.{bit_resolution_size}
use vban.Vban.Header.{Header, read_header, write_header}
use vban.Stream.{StreamConfig}
use vban.Packet.{content_fields}
use vban.Packet.Prepared.{IsPrepared}
use vban.Packet.Content.{
  set_content_lem, written-IsPrepared, payload-IsPrepared, read_header-with_payload,
}
use vban.Packet.Datagrams.{
  Datagram, IsBlock, AreBlocks, bytes_of, contents, datagrams, set_content_sends,
  set_content_checked,
}
use vban.Socket.{Net, Socket, socket_write}
use vban.Audio.{Audio}
use vban.Audio.Reading.{audio_read_plain}
use vban.Audio.Interface.{Backend, BackendLaws}
use vban.Emitter.{Emitter, send_packet, on_audio, emitter_step, emitter_loop}
use vban.Session.{Reads, all_read, reads, Sends, all_sent, sends}

-- The emitter's buffer with a block behind its header.
stored : List ℕ → List ℕ → List ℕ
stored m block = take 28 m ++ splice (drop 28 m) 0 block

module _ (name m block : List ℕ) (c : StreamConfig) (p : IsPrepared name c m)
    (long : length m ≡ 1464) (is_block : IsBlock c block) where
  few : 0 + length block ≤ length (drop 28 m)
  few = omega (arith, length-drop 28 m, is_block.fits)

  stored-IsPrepared : IsPrepared name c (stored m block)
  unfolding stored
  stored-IsPrepared =
      payload-IsPrepared name m (splice (drop 28 m) 0 block) c p
        (splice-IsBytes (drop 28 m) 0 block few (drop-IsBytes 28 m p.bytes) is_block.bytes)

  length-stored : length (stored m block) ≡ 1464
  unfolding stored
  length-stored = omega (
    arith,
    length-append (take 28 m) (splice (drop 28 m) 0 block),
    length-take 28 m,
    length-splice (drop 28 m) 0 block few,
    length-drop 28 m,
  )

  read_header-stored : read_header (stored m block) ≡ read_header m
  unfolding stored
  read_header-stored = read_header-with_payload m (splice (drop 28 m) 0 block) p.room

  slice-stored : slice (stored m block) 28 (length block) ≡ block
  unfolding stored splice
  slice-stored =
      let behind = drop (0 + length block) (drop 28 m) in
      ap (λ l. take (length block) l)
        (drop-append (take 28 m) (block ++ behind) 28 (omega (arith, length-take 28 m, long)))
      ∙ take-append block behind (length block) refl

module _ {Device World : Type 0} (b : Backend Device) (net : Net World) (laws : BackendLaws b)
    (s : Socket) (name : List ℕ) (c : StreamConfig) (ss max_size : ℕ) (fits : max_size ≤ 1436)
    (sized : get_elem? bit_resolution_size c.bit_fmt ≡ some ss) where
  abbrev emitter : Audio Device → List ℕ → Emitter Device
  emitter a m = record { socket = some s; audio = some a; buffer = m }

  -- The datagram of a block that follows a header, and what the network makes of it.
  abbrev next : Header → List ℕ → Datagram
  next h block = record { header = content_fields h (length block); block = block }

  abbrev sent : Header → List ℕ → World → ℤ × World
  sent h block w = socket_write net (some s) (some (bytes_of (next h block))) w

  send_packet-next :
      (a : Audio Device) (m block : List ℕ) (w : World)
      → IsPrepared name c m
      → length m ≡ 1464
      → IsBlock c block
      → slice m 28 (length block) ≡ block
      → is_negative (sent (read_header m) block w).0 ≡ false
      → send_packet net name (emitter a m) (length block) w
        ≡ some (
          true,
          (sent (read_header m) block w).0,
          emitter a (write_header m (next (read_header m) block).header),
          (sent (read_header m) block w).1,
        )
  unfolding send_packet
  send_packet-next a m block w p long is_block at good =
      let n = length block in
      let m' = write_header m (content_fields (read_header m) n) in
      let (p', same, back) = written-IsPrepared name m c n p in
      rw (
        set_content_lem name m c n p,
        set_content_checked name c m block p is_block at,
        read_block_in m' 0 (n + 28) (omega (arith, same, long, is_block.fits)),
        set_content_sends name c m block p is_block at,
        good,
      )

  emitter_step-next :
      (ret : ℤ) (a : Audio Device) (h : Header) (m block : List ℕ) (d' : Device) (w : World)
      → IsPrepared name c m
      → read_header m ≡ h
      → length m ≡ 1464
      → a.stream ≡ c
      → a.map.nb_channels ≡ 0
      → IsBlock c block
      → b.read_data a.device max_size ≡ (pos (length block), block, d')
      → is_negative (sent h block w).0 ≡ false
      → (m' : List ℕ) × (emitter_step b net name max_size ret (emitter a m) w
          ≡ some
              (true, (sent h block w).0, emitter (record a { device = d' }) m', (sent h block w).1))
        × IsPrepared name c m'
        × (length m' ≡ 1464)
        × (read_header m' ≡ (next h block).header)
  unfolding emitter_step on_audio stored
  emitter_step-next ret a h m block d' w p eh long stream no_map is_block got good =
      let m1 = stored m block in
      let p1 = stored-IsPrepared name m block c p long is_block in
      let head = read_header-stored name m block c p long is_block ∙ eh in
      let reads =
        audio_read_plain b a (drop 28 m) max_size ss laws
          (ap (λ t. get_elem? bit_resolution_size t.bit_fmt) stream ∙ sized) no_map
          (omega (arith, length-drop 28 m, long, fits)) in
      let goes =
        send_packet-next (record a { device = d' }) m1 block w p1
          (length-stored name m block c p long is_block) is_block
          (slice-stored name m block c p long is_block) (rw head good) in
      let (p', same, back) = written-IsPrepared name m1 c (length block) p1 in
      (
        write_header m1 (content_fields (read_header m1) (length block)),
        rw (reads, got)
            (goes
              ∙ ap
                  (λ h. some (
                    true,
                    (sent h block w).0,
                    emitter (record a { device = d' })
                        (write_header m1 (next (read_header m1) block).header),
                    (sent h block w).1,
                  ))
                  head),
        p',
        same ∙ length-stored name m block c p long is_block,
        back ∙ ap (λ h. content_fields h (length block)) head,
      )

  pub emitter_loop-Sends :
      {d d' : Device} {blocks : List (List ℕ)} {w w' : World} (h : Header) (ret : ℤ)
      (a : Audio Device) (m : List ℕ)
      → Reads b max_size d blocks d'
      → Sends net s w (contents (datagrams h blocks)) w'
      → AreBlocks c blocks
      → d ≡ a.device
      → IsPrepared name c m
      → read_header m ≡ h
      → length m ≡ 1464
      → a.stream ≡ c
      → a.map.nb_channels ≡ 0
      → (ret' : ℤ) × (m' : List ℕ) × (emitter_loop b net
            (length blocks)
            name
            max_size
            ret
            (emitter a m)
            w
          ≡ some (still_running (ret', emitter (record a { device = d' }) m', w')))
        × IsPrepared name c m'
        × (length m' ≡ 1464)
  unfolding emitter_loop
  emitter_loop-Sends {w = w} h ret a m all_read all_sent valid e p eh long stream no_map =
      (ret, m, rw e refl, p, long)
  emitter_loop-Sends {w = w} h ret a m (reads {d} {d'} {d''} {block} {blocks} got later)
        (sends good rest) valid e p eh long stream no_map =
      let (m', steps, p', long', head) =
        emitter_step-next ret a h m block d' w p eh long stream no_map valid.0
          (ap (λ x. b.read_data x max_size) (sym e) ∙ got) good in
      let (ret', m'', loops, p'', long'') =
        emitter_loop-Sends (next h block).header (sent h block w).0 (record a { device = d' }) m'
          later rest valid.1 refl p' head long' stream no_map in
      (ret', m'', rw steps loops, p'', long'')
