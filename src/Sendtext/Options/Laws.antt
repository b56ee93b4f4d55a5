-- ===== src/Sendtext/Options/Laws.antt =====
-- The text tool from its command line to the datagram.
use vban.Prelude.{
  ℕ, ◌+◌, ◌≤◌, ◌≡◌, ◌≢◌, arith, true, List, [], ◌∷◌, Option, some, length, ◌==◌, >>=-some,
}
use vban.Prelude.Int.{ℤ, pos}
use vban.Prelude.Memory.{IsBytes, slice}
use vban.Prelude.CString.{text_of}
use vban.Vban.Header.{read_header}
use vban.Packet.{packet_check}
use vban.Options.{options_loop, copy_arg, int_arg, set_ip_address, set_port}
use vban.Prelude.{Ensures, Ensures-case, Ensures-any, Ensures-some}
use vban.Options.Laws.{
  IsText, ArgIsBytes, ItemsAreBytes, copy_arg-IsText, IsSocketConfig, zeros-IsText,
  set_ip_address-IsSocketConfig, set_port-IsSocketConfig, options_loop-Ensures,
}
use vban.Socket.{Net, Socket, socket_init, socket_write, socket_release}
use vban.Sendtext.{TextConfig, text_header}
use vban.Sendtext.Laws.{sendtext_main_lem}
use vban.Sendtext.Options.{TextOptions, default_options, text_option, get_options, sendtext_program}

-- The address and the stream's name end inside their arrays.
abbrev IsStored : TextOptions → Type 0
IsStored o = IsSocketConfig o.config.socket × IsText 16 o.config.stream_name

text_option-IsStored :
    (c : ℕ) (optarg : Option (List ℕ)) (o : TextOptions)
    → ArgIsBytes optarg
    → IsStored o
    → Ensures (λ r. IsStored (r.1)) (text_option c optarg o)
unfolding text_option
text_option-IsStored c optarg o arg valid =
    let P = λ (r : ℤ × TextOptions). IsStored (r.1) in
    let any = λ (n : ℤ). Unit {0} in
    let anything = Ensures-any (int_arg optarg) in
    Ensures-case IsSocketConfig P (c == b'i') (set_ip_address o.config.socket optarg) _ _
      (set_ip_address-IsSocketConfig o.config.socket optarg arg valid.0) (λ socket t. (t, valid.1))
      (Ensures-case IsSocketConfig P (c == b'p') (set_port o.config.socket optarg) _ _
        (set_port-IsSocketConfig o.config.socket optarg valid.0) (λ socket t. (t, valid.1))
        (Ensures-case (IsText 16) P (c == b's') (copy_arg o.config.stream_name 16 optarg) _ _
          (copy_arg-IsText o.config.stream_name 16 optarg (omega arith) arg valid.1)
          (λ name t. (valid.0, t))
          (Ensures-case any P (c == b'b') (int_arg optarg) _ _ anything (λ n _. valid)
            (Ensures-case any P (c == b'n') (int_arg optarg) _ _ anything (λ n _. valid)
              (Ensures-case any P (c == b'f') (int_arg optarg) _ _ anything (λ n _. valid)
                (Ensures-case any P (c == b'l') (int_arg optarg) _ _ anything (λ n _. valid)
                  valid))))))

get_options-IsStored :
    (items : List (ℕ × Option (List ℕ))) (operands : List (List ℕ)) {ret : ℤ} {config : TextConfig}
    → ItemsAreBytes items
    → get_options items operands ≡ some (ret, config)
    → IsText 16 config.stream_name
unfolding get_options
get_options-IsStored items operands {ret} {config} bytes h =
    let (r, loops, checks) = >>=-some (options_loop text_option items default_options) _ h in
    let stored =
      Ensures-some (λ r. IsStored (r.1))
        (options_loop-Ensures IsStored text_option text_option-IsStored items default_options bytes
          (zeros-IsText 32, zeros-IsText 16))
        loops in
    let found : r.1.config ≡ config = cc in rw (← found) (stored.1)

module _ {World : Type 0} (net : Net World) (items : List (ℕ × Option (List ℕ)))
    (msg : List ℕ) where
  -- When the arguments on the command line are bytes, the message has at most 1435 characters,
  -- `get_options` returns 0 and the socket opens, the tool sends one datagram, closes the socket and
  -- returns what `socket_write` returned. The datagram is the first `28 + strlen(msg)` bytes of a buffer
  -- whose header has the fields of the configuration, which holds the message from offset 28 on, and
  -- which `packet_check` refuses as audio under every name.
  pub sendtext_program_lem :
      (config : TextConfig) (w w' : World) (s : Socket)
      → ItemsAreBytes items
      → IsBytes msg
      → length (text_of msg) ≤ 1435
      → get_options items (msg ∷ []) ≡ some (pos 0, config)
      → socket_init net true (some config.socket) w ≡ some (pos 0, some s, w')
      → let len = length (text_of msg) in
        (packet : List ℕ) × (let (ret, sent) =
            socket_write net (some s) (some (slice packet 0 (len + 28))) w' in
          sendtext_program net items (msg ∷ []) true w
          ≡ some (ret, (socket_release net (some s) sent).1))
        × (read_header packet ≡ text_header config)
        × (slice packet 28 len ≡ text_of msg)
        × ((name : List ℕ) → packet_check (some name) (some packet) (len + 28) ≢ pos 0)
  unfolding sendtext_program
  sendtext_program_lem config w w' s args bytes short options opens =
      let name = get_options-IsStored items (msg ∷ []) args options in
      let (packet, sends, header, text, refused) =
        sendtext_main_lem net config msg w w' s name.bytes bytes short opens in
      (packet, rw options sends, header, text, refused)
