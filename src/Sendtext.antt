-- ===== src/Sendtext.antt =====
-- src/sendtext/main.c from the parsed options on: one packet of the text sub protocol is sent. A fault
-- ends the run with `none`.
pub mod Laws
pub mod Options
use vban.Prelude.{
  ℕ, ◌+◌, ◌-◌, ◌%◌, bit_or, Bool, List, Option, none, some, length, replicate, ltb, not,
  if◌then◌else◌, ◌>>=◌,
}
use vban.Prelude.Int.{ℤ, pos, is_zero, as_uint}
use vban.Prelude.Memory.{read_block, write_block}
use vban.Prelude.CString.{text_of, strncpy}
use vban.Vban.{
  header_size, data_max_size, protocol_max_size, stream_name_size, header_fourc, protocol_txt,
}
use vban.Vban.Header.{Header, write_header}
use vban.Socket.{Net, Socket, SocketConfig, socket_init, socket_write, socket_release}

-- `struct config_t`
pub record TextConfig : Type 0 where
  pub socket : SocketConfig
  pub stream_name : List ℕ
  pub bps : ℤ
  pub ident : ℤ
  pub format : ℤ

-- An `int` stored into a `uint8_t`.
abbrev pub as_u8 : ℤ → ℕ
as_u8 z = as_uint z % 256

-- The fields that `main` stores. The `|` is computed on the low byte, the one that is kept.
abbrev pub text_header : TextConfig → Header
text_header config = record {
  vban = header_fourc;
  format_sr = bit_or (as_u8 config.bps) protocol_txt;
  format_nbs = 0;
  format_nbc = as_u8 config.ident;
  format_bit = as_u8 config.format;
  streamname = strncpy stream_name_size config.stream_name;
  nu_frame = 0;
}

module _ {World : Type 0} (net : Net World) where
  -- `main` once the socket is open; `buffer` holds the message behind the header.
  unfoldable pub send_text : TextConfig → List ℕ → ℕ → Option Socket → World → Option (ℤ × World)
  send_text config buffer len socket w =
      read_block (write_header buffer (text_header config)) 0 (len + header_size) >>= λ bytes.
      let (ret, w') = socket_write net socket (some bytes) w in
      some (ret, (socket_release net socket w').1)

  -- `main` behind `get_options`; the Boolean says whether `calloc` gives memory for the socket.
  unfoldable pub sendtext_main : Bool → TextConfig → List ℕ → World → Option (ℤ × World)
  sendtext_main memory config msg w =
      let len = length (text_of msg) in
      if ltb (data_max_size - 1) len
      then some (pos 1, w)
      else (write_block (replicate protocol_max_size 0) header_size
            (strncpy (data_max_size - 1) msg)
          >>= λ buffer. socket_init net memory (some config.socket) w >>= λ (ret, socket, w').
              if not (is_zero ret) then some (ret, w') else send_text config buffer len socket w')
