-- ===== src/Sendtext/Laws.antt =====
-- The datagram of the text tool: its header, its text, and what an audio receiver makes of it.
use vban.Prelude.{
  ℕ, zero, suc, ◌+◌, ◌≤◌, ◌<◌, ◌≡◌, ◌≢◌, refl, ap, arith, bit_or, true, false, List, [], ◌∷◌, some,
  length, length-take, length-replicate, get_or-replicate, take, replicate, ltb, leb, ◌==◌,
  if◌then◌else◌, passes_from, passes_at, Bool-cases, inl, inr, ◌∙◌,
}
use vban.Prelude.Int.{pos}
use vban.Prelude.Memory.{
  IsBytes, slice, splice, read_block_in, write_block_in, length-splice, splice-IsBytes, drop-append,
}
use vban.Prelude.Memory.Slices.{slice-append}
use vban.Prelude.CString.{text_of, strncpy, length-strncpy, strncpy-IsBytes}
use vban.Vban.Header.{IsHeader, read_header, write_header}
use vban.Vban.Header.Laws.{
  read_header-write_header, write_header-IsBytes, length-write_header, drop-write_header,
}
use vban.Packet.{packet_check}
use vban.Packet.Check.{packet_check_iff}
use vban.Socket.{Net, Socket, socket_init, socket_write, socket_release}
use vban.Sendtext.{TextConfig, as_u8, text_header, send_text, sendtext_main}

take-strncpy :
    (n : ℕ) (s : List ℕ)
    → length (text_of s) ≤ n
    → take (length (text_of s)) (strncpy n s) ≡ text_of s
unfolding strncpy
take-strncpy n [] h = refl
take-strncpy zero (c ∷ s) h = elim (Bool-cases (c == 0)) [
  | inl e ↦ rw e refl
  | inr e ↦ absurd (ground arith)
]
take-strncpy (suc n) (c ∷ s) h = elim (Bool-cases (c == 0)) [
  | inl e ↦ rw e refl
  | inr e ↦ rw e (ap (λ l. c ∷ l) (take-strncpy n s (ground arith)))
]

-- The low byte with the bit of the text protocol.
text_bit :
    passes_from (λ x. if ltb (bit_or x 0x40) 256 then leb 64 (bit_or x 0x40) else false) 256 0
    ≡ true
unfolding passes_from
text_bit = refl

text_bit_lem : (x : ℕ) → x < 256 → (64 ≤ bit_or x 0x40) × (bit_or x 0x40 < 256)
text_bit_lem x h =
    let both =
      passes_at (λ y. if ltb (bit_or y 0x40) 256 then leb 64 (bit_or y 0x40) else false) 256 0 x
        (omega arith) (omega arith) text_bit in
    ground (arith, both)

text_header-IsHeader :
    (config : TextConfig) → IsBytes config.stream_name → IsHeader (text_header config)
text_header-IsHeader config bytes = record {
  vban_u32 = omega arith;
  sr_u8 = (text_bit_lem (as_u8 config.bps) (omega arith)).1;
  nbs_u8 = omega arith;
  nbc_u8 = omega arith;
  bit_u8 = omega arith;
  name_16 = length-strncpy 16 config.stream_name;
  nu_u32 = omega arith;
  name_u8 = strncpy-IsBytes 16 config.stream_name bytes;
}

-- The buffer before its header is stored: zeros, and the message from offset 28 on.
abbrev message_buffer : List ℕ → List ℕ
message_buffer msg = splice (replicate 1464 0) 28 (strncpy 1435 msg)

module _ (msg : List ℕ) where
  message_fits : 28 + length (strncpy 1435 msg) ≤ length (replicate {A = ℕ} 1464 0)
  message_fits = omega (arith, length-strncpy 1435 msg, length-replicate {A = ℕ} 1464 0)

  length-message_buffer : length (message_buffer msg) ≡ 1464
  length-message_buffer =
      length-splice (replicate 1464 0) 28 (strncpy 1435 msg) message_fits
      ∙ length-replicate {A = ℕ} 1464 0

  message_buffer-IsBytes : IsBytes msg → IsBytes (message_buffer msg)
  message_buffer-IsBytes bytes =
      splice-IsBytes (replicate 1464 0) 28 (strncpy 1435 msg) message_fits
        (λ i. rw get_or-replicate (omega arith)) (strncpy-IsBytes 1435 msg bytes)

  slice-message_buffer :
      length (text_of msg) ≤ 1435
      → slice (message_buffer msg) 28 (length (text_of msg)) ≡ text_of msg
  unfolding splice
  slice-message_buffer short =
      let copied = strncpy 1435 msg in
      ap (λ l. take (length (text_of msg)) l)
        (drop-append (take 28 (replicate 1464 0)) _ 28 (
          omega
            (arith, length-take {A = ℕ} 28 (replicate 1464 0), length-replicate {A = ℕ} 1464 0)))
      ∙ slice-append copied _ 0 (length (text_of msg)) (omega (arith, length-strncpy 1435 msg))
      ∙ take-strncpy 1435 msg short

module _ (config : TextConfig) (msg : List ℕ) (name_bytes : IsBytes config.stream_name)
    (msg_bytes : IsBytes msg) where
  abbrev text_packet : List ℕ
  text_packet = write_header (message_buffer msg) (text_header config)

  length-text_packet : length text_packet ≡ 1464
  length-text_packet =
      length-write_header (message_buffer msg) (text_header config)
        (text_header-IsHeader config name_bytes) (omega (arith, length-message_buffer msg))
      ∙ length-message_buffer msg

  text_packet-IsBytes : IsBytes text_packet
  text_packet-IsBytes =
      write_header-IsBytes (message_buffer msg) (text_header config)
        (message_buffer-IsBytes msg msg_bytes) (text_header-IsHeader config name_bytes)

  read_header-text_packet : read_header text_packet ≡ text_header config
  read_header-text_packet =
      read_header-write_header (message_buffer msg) (text_header config)
        (text_header-IsHeader config name_bytes)

  -- The rate index of the header has the bit of the text protocol set, which no audio packet has.
  text_packet_refused :
      (name : List ℕ) (size : ℕ) → packet_check (some name) (some text_packet) size ≢ pos 0
  unfolding read_header
  text_packet_refused name size e =
      let audio = (packet_check_iff name text_packet size text_packet-IsBytes).0 e in
      let rate = ap (λ h. h.format_sr) read_header-text_packet in
      absurd (omega (arith, audio.rate, rate, (text_bit_lem (as_u8 config.bps) (omega arith)).0))

module _ {World : Type 0} (net : Net World) (config : TextConfig) (msg : List ℕ) where
  -- `main` behind `get_options`.
  pub sendtext_main_lem :
      (w w' : World) (s : Socket)
      → IsBytes config.stream_name
      → IsBytes msg
      → length (text_of msg) ≤ 1435
      → socket_init net true (some config.socket) w ≡ some (pos 0, some s, w')
      → let len = length (text_of msg) in
        (packet : List ℕ) × (let (ret, sent) =
            socket_write net (some s) (some (slice packet 0 (len + 28))) w' in
          sendtext_main net true config msg w ≡ some (ret, (socket_release net (some s) sent).1))
        × (read_header packet ≡ text_header config)
        × (slice packet 28 len ≡ text_of msg)
        × ((name : List ℕ) → packet_check (some name) (some packet) (len + 28) ≢ pos 0)
  unfolding sendtext_main send_text
  sendtext_main_lem w w' s name_bytes msg_bytes short opens =
      let packet = text_packet config msg name_bytes msg_bytes in
      let fits : ltb 1435 (length (text_of msg)) ≡ false = ground arith in
      let room = length-text_packet config msg name_bytes msg_bytes in
      let reads = read_block_in packet 0 (length (text_of msg) + 28) (omega arith) in
      (
        packet,
        rw (
          fits,
          write_block_in (replicate 1464 0) 28 (strncpy 1435 msg) (message_fits msg),
          opens,
          reads,
        ),
        read_header-text_packet config msg name_bytes msg_bytes,
        ap (λ l. take (length (text_of msg)) l)
              (drop-write_header (message_buffer msg) (text_header config)
                (text_header-IsHeader config name_bytes))
            ∙ slice-message_buffer msg short,
        λ name.
            text_packet_refused config msg name_bytes msg_bytes name (length (text_of msg) + 28),
      )
