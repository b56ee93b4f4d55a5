-- ===== src/Session.antt =====
-- The emitter and the receptor together: what a backend reads on one side is played on the other.
-- Here are the views of both programs' worlds: what a backend reads in turn, which datagrams a network
-- takes and gives, and what a device is when blocks were written to it.
pub mod Sending
pub mod Playing
pub mod Mixed
pub mod Delivery
pub mod Run
pub mod Stopping
mod Tests
use vban.Prelude.{ℕ, ◌≡◌, List, [], ◌∷◌, some, length, true, false}
use vban.Prelude.Int.{pos, is_negative}
use vban.Prelude.CString.{strncmp_eq}
use vban.Vban.{protocol_max_size}
use vban.Socket.{Net, Socket, datagram, socket_write}
use vban.Audio.Interface.{Backend}

module _ {Device : Type 0} (b : Backend Device) where
  -- The backend, asked for `size` bytes each time, reads one block after another.
  pub data Reads (size : ℕ) : Device → List (List ℕ) → Device → Type 0 where
    all_read : {d : Device} → Reads size d [] d
    reads :
        {d d' d'' : Device} {block : List ℕ} {blocks : List (List ℕ)}
        → b.read_data d size ≡ (pos (length block), block, d')
        → Reads size d' blocks d''
        → Reads size d (block ∷ blocks) d''

  -- The device after all blocks were written to it in turn.
  pub write_all : Device → List (List ℕ) → Device
  write_all d [] = d
  write_all d (block ∷ blocks) = write_all (b.write_data d block).1 blocks

module _ {World : Type 0} (net : Net World) (s : Socket) where
  -- `socket_write` takes one packet after another.
  pub data Sends : World → List (List ℕ) → World → Type 0 where
    all_sent : {w : World} → Sends w [] w
    sends :
        {w w' : World} {packet : List ℕ} {packets : List (List ℕ)}
        → is_negative (socket_write net (some s) (some packet) w).0 ≡ false
        → Sends (socket_write net (some s) (some packet) w).1 packets w'
        → Sends w (packet ∷ packets) w'

  -- The packets arrive one after another from the address of the socket's configuration.
  pub data Receives : World → List (List ℕ) → World → Type 0 where
    all_received : {w : World} → Receives w [] w
    receives :
        {w w' w'' : World} {sender packet : List ℕ} {packets : List (List ℕ)}
        → net.receive w s.fd protocol_max_size ≡ (datagram sender packet, w')
        → strncmp_eq 32 s.config.ip_address sender ≡ true
        → Receives w' packets w''
        → Receives w (packet ∷ packets) w''
