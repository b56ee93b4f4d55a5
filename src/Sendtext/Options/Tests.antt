-- ===== src/Sendtext/Options/Tests.antt =====
-- The text tool on a concrete command line and network.
use vban.Prelude.{ℕ, ◌≡◌, ◌≢◌, refl, arith, true, List, [], ◌∷◌, ◌++◌, Option, some, replicate}
use vban.Prelude.Int.{pos}
use vban.Prelude.Memory.{slice, splice, write_block, read_block}
use vban.Prelude.CString.{codes, strncpy, strncmp_eq}
use vban.Prelude.Scan.{atoi, skip_spaces, digits_value}
use vban.Vban.Header.{read_header, write_header}
use vban.Packet.{packet_check}
use vban.Options.{options_loop, set_ip_address, set_port}
use vban.Socket.{
  Socket, socket_out, socket_init, socket_open, socket_close, create_and_bind, with_descriptor,
  bind_or_broadcast, socket_is_broadcast_address, socket_write, socket_release,
}
use vban.Sendtext.{TextConfig, text_header, send_text, sendtext_main}
use vban.Sendtext.Options.{text_option, check_options, get_options, sendtext_program}
use vban.Sendtext.Options.Laws.{sendtext_program_lem}
use vban.Samples.{all_bytes_sound, stream_name, peer, wire, empty}

abbrev items : List (ℕ × Option (List ℕ))
items =
    (b'i', some peer)
    ∷ (b'p', some (codes "6980"))
    ∷ (b's', some stream_name)
    ∷ (b'n', some (codes "3"))
    ∷ []

abbrev chosen : TextConfig
chosen = record {
  socket = record {
    direction = socket_out;
    ip_address = splice (replicate 32 0) 0 (strncpy 31 peer);
    port = pos 6980;
  };
  stream_name = splice (replicate 16 0) 0 (strncpy 15 stream_name);
  bps = pos 0;
  ident = pos 3;
  format = pos 1;
}

abbrev sender : Socket
sender = record { config = chosen.socket; fd = 3 }

options_read : get_options items (codes "hi" ∷ []) ≡ some (pos 0, chosen)
unfolding get_options options_loop text_option set_ip_address set_port check_options strncpy splice
    write_block atoi skip_spaces digits_value
options_read = refl

socket_opens : socket_init wire true (some chosen.socket) empty ≡ some (pos 0, some sender, empty)
unfolding socket_init socket_open socket_close create_and_bind with_descriptor bind_or_broadcast
    socket_is_broadcast_address strncpy splice strncmp_eq
socket_opens = refl

-- No message, and two of them.
operands_counted :
    (sendtext_program wire items [] true empty ≡ some (pos 1, empty))
    × (sendtext_program wire items (codes "hi" ∷ codes "you" ∷ []) true empty ≡ some (pos 1, empty))
unfolding sendtext_program get_options options_loop text_option set_ip_address set_port
    check_options strncpy splice write_block atoi skip_spaces digits_value
operands_counted = (refl, refl)

abbrev sent : List ℕ
sent =
    b'V'
    ∷ b'B'
    ∷ b'A'
    ∷ b'N'
    ∷ 64
    ∷ 0
    ∷ 3
    ∷ 1
    ∷ (strncpy 16 stream_name ++ (0 ∷ 0 ∷ 0 ∷ 0 ∷ codes "hi"))

sends_message :
    sendtext_main wire true chosen (codes "hi") empty
    ≡ some (pos 30, record { inbox = []; outbox = sent ∷ [] })
unfolding sendtext_main send_text socket_init socket_open socket_close create_and_bind
    with_descriptor bind_or_broadcast socket_is_broadcast_address socket_write socket_release
    strncpy splice write_block read_block strncmp_eq write_header
sends_message = refl

-- witnesses

sendtext_program_lem_example :
    (packet : List ℕ) × (let (ret, after) =
        socket_write wire (some sender) (some (slice packet 0 30)) empty in
      sendtext_program wire items (codes "hi" ∷ []) true empty
      ≡ some (ret, (socket_release wire (some sender) after).1))
    × (read_header packet ≡ text_header chosen)
    × (slice packet 28 2 ≡ codes "hi")
    × ((name : List ℕ) → packet_check (some name) (some packet) 30 ≢ pos 0)
sendtext_program_lem_example =
    sendtext_program_lem wire items (codes "hi") chosen empty empty sender
      (
        all_bytes_sound peer refl,
        (
          all_bytes_sound (codes "6980") refl,
          (all_bytes_sound stream_name refl, (all_bytes_sound (codes "3") refl, tt)),
        ),
      )
      (all_bytes_sound (codes "hi") refl) (omega arith) options_read socket_opens
