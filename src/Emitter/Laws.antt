-- ===== src/Emitter/Laws.antt =====
-- The emitter: each packet that it sends, and what a receiver makes of the datagram.
use vban.Prelude.{
  ℕ, ◌+◌, ◌*◌, ◌%◌, ◌^◌, ◌≤◌, ◌≡◌, ap, ◌∙◌, arith, List, Option, some, length, length-drop, take,
  drop, not,
}
use vban.Prelude.Int.{pos, is_negative}
use vban.Prelude.Memory.{slice, splice, read_block_in}
use vban.Prelude.Memory.Slices.{slice-copied}
use vban.Vban.Header.{read_header}
use vban.Stream.{StreamConfig}
use vban.Packet.{packet_check, packet_get_stream_config}
use vban.Packet.Prepared.{IsPrepared, frame_bytes}
use vban.Packet.Emit.{set_content_accepted, get_config_prepared}
use vban.Packet.Copied.{packet_check-copied, get_config-copied}
use vban.Socket.{Net, Socket, socket_write}
use vban.Audio.{Audio}
use vban.Emitter.{send_packet}

-- The receiver's buffer `dest` with the first `n` bytes of a packet at its front.
abbrev pub received : List ℕ → List ℕ → ℕ → List ℕ
received packet dest n = splice dest 0 (slice packet 0 n)

-- What the first `28 + size` bytes of `packet` mean to a receiver that has them at the front of its
-- buffer: a packet of the stream, its parameters, and a payload.
pub record Arrives (name : List ℕ) (c : StreamConfig) (size : ℕ) (payload packet dest : List ℕ)
    : Type 0 where
  pub checked :
      packet_check (some name) (some (received packet dest (28 + size))) (28 + size) ≡ pos 0
  pub parameters :
      (old : StreamConfig)
      → packet_get_stream_config (some (received packet dest (28 + size))) (some old)
        ≡ some (pos 0, c)
  pub same_payload : slice (received packet dest (28 + size)) 28 size ≡ payload

-- Buffers that agree behind the header have one length.
pub same_length :
    (m m' : List ℕ) → 28 ≤ length m → 28 ≤ length m' → drop 28 m' ≡ drop 28 m → length m' ≡ length m
same_length m m' h h' e =
    let lengths : length (drop 28 m') ≡ length (drop 28 m) = ap (λ l. length l) e in
    omega (arith, lengths, length-drop 28 m, length-drop 28 m')

module _ {Device World : Type 0} (net : Net World) where
  -- From a buffer prepared for a stream, with 1 to 256 whole frames of audio in its payload, the
  -- emitter sends one datagram, of the header and that payload, and stops if `socket_write` fails. The
  -- buffer stays prepared, the frame number grows by one, modulo 2 ^ 32, and a receiver with room for
  -- the datagram accepts it under the stream's name, with the parameters and the payload of the sender.
  pub send_packet_lem :
      (name m : List ℕ) (c : StreamConfig) (frames : ℕ) (s : Option Socket)
      (audio : Option (Audio Device)) (w : World)
      → IsPrepared name c m
      → 1 ≤ frames
      → frames ≤ 256
      → 28 + frames * frame_bytes c ≤ length m
      → let size = frames * frame_bytes c in
        (packet : List ℕ) × (let (ret, w') =
            socket_write net s (some (slice packet 0 (28 + size))) w in
          send_packet net name (record { socket = s; audio = audio; buffer = m }) size w
          ≡ some (
            not (is_negative ret),
            ret,
            record { socket = s; audio = audio; buffer = packet },
            w',
          ))
        × IsPrepared name c packet
        × ((read_header packet).nu_frame ≡ ((read_header m).nu_frame + 1) % 2 ^ 32)
        × ((dest : List ℕ)
            → 28 + size ≤ length dest
            → Arrives name c size (slice m 28 size) packet dest)
  unfolding send_packet
  send_packet_lem name m c frames s audio w p some_frame le fits =
      let size = frames * frame_bytes c in
      let (packet, sets, p', checks, counts, same) =
        set_content_accepted name m c frames p some_frame le in
      let lengths = same_length m packet p.room p'.room same in
      let all : 28 + size ≤ length packet = omega (arith, lengths, fits) in
      let swapped : size + 28 ≡ 28 + size = omega arith in
      (
        packet,
        rw (sets, swapped, checks, read_block_in packet 0 (28 + size) (omega arith)),
        p',
        counts,
        λ dest room. record {
          checked =
              packet_check-copied packet dest (28 + size) all room (omega arith) name (28 + size)
              ∙ checks;
          parameters = λ old.
              get_config-copied packet dest (28 + size) all room (omega arith) old
              ∙ get_config_prepared name packet c old p';
          same_payload =
              slice-copied packet dest (28 + size) 28 size all (omega arith)
              ∙ ap (λ l. take size l) same;
        },
      )
