-- ===== src/Socket.antt =====
-- src/common/socket.c and socket.h, in the variant for POSIX systems: a UDP socket of one direction.
-- The calls of the operating system are an interface over its state.
pub mod Opening
pub mod Receiving
pub mod Descriptors
mod Tests
use vban.Prelude.{
  ℕ, zero, suc, ◌-◌, ◌<◌, ◌≡◌, List, [], ◌∷◌, Option, none, some, drop, length, ltb, true, false,
  ◌==◌, if◌then◌else◌, ◌>>=◌, Bool,
}
use vban.Prelude.Int.{ℤ, pos, negsuc, is_negative, is_zero, einval, enodev, enomem}
use vban.Prelude.Memory.{write_block}
use vban.Prelude.CString.{text_of, codes, strncmp_eq}

-- What `recvfrom` does: it returns a negative value, or stores a datagram and says who sent it (the
-- text that `inet_ntoa` makes of the address).
pub data Received : Type 0 where
  failed : ℕ → Received
  datagram : List ℕ → List ℕ → Received

-- The system calls of the file, over the state of the system. A descriptor is a number.
pub record Net (World : Type 0) : Type 0 where
  pub create : World → ℤ × World
  pub bind_port : World → ℕ → ℤ → ℤ × World
  pub set_broadcast : World → ℕ → ℤ × World
  pub close_fd : World → ℕ → ℤ × World
  pub errno : World → ℤ
  pub receive : World → ℕ → ℕ → Received × World
  pub send : World → ℕ → List ℕ → ℤ → List ℕ → ℤ × World

-- `enum socket_direction`
pub data SocketDirection : Type 0 where
  socket_in socket_out : SocketDirection

-- `struct socket_config_t`; the port is a `short`.
pub record SocketConfig : Type 0 where
  pub direction : SocketDirection
  pub ip_address : List ℕ
  pub port : ℤ

-- `struct socket_t`; the descriptor 0 stands for a socket that is not open.
pub record Socket : Type 0 where
  pub config : SocketConfig
  pub fd : ℕ

-- `socket_is_broadcast_address`: an address of less than three characters is read in front of its
-- beginning.
unfoldable pub socket_is_broadcast_address : List ℕ → Option Bool
socket_is_broadcast_address ip =
    let size = length (text_of ip) in
    if ltb size 3 then none else some (strncmp_eq 3 (drop (size - 3) ip) (codes "255"))

module _ {World : Type 0} (net : Net World) where
  -- `socket_close`
  unfoldable pub socket_close : Socket → World → ℤ × Socket × World
  socket_close s w =
      if s.fd == 0
      then (pos 0, s, w)
      else (let (ret, w') = net.close_fd w s.fd in (ret, record s { fd = 0 }, w'))

  -- `socket_open` behind the creation of the descriptor `fd`: the port is bound, or the option for
  -- broadcasts is set.
  unfoldable pub bind_or_broadcast : SocketDirection → Socket → World → Option (ℤ × Socket × World)
  bind_or_broadcast socket_in s w =
      let (ret, bound) = net.bind_port w s.fd s.config.port in
      let (_, closed, w') = socket_close s bound in
      if is_negative ret then some (net.errno w', closed, w') else some (pos 0, s, bound)
  bind_or_broadcast socket_out s w =
      socket_is_broadcast_address s.config.ip_address >>= λ broadcast.
      let (ret, set) = net.set_broadcast w s.fd in
      let (_, closed, w') = socket_close s set in
      if broadcast
      then if is_negative ret then some (net.errno w', closed, w') else some (pos 0, s, set)
      else some (pos 0, s, w)

  -- `socket_open` once `socket` has returned: a failure leaves the socket closed.
  unfoldable pub with_descriptor : ℤ → Socket → World → Option (ℤ × Socket × World)
  with_descriptor (negsuc k) s created = some (negsuc k, record s { fd = 0 }, created)
  with_descriptor (pos fd) s created =
      bind_or_broadcast s.config.direction (record s { fd = fd }) created

  -- `socket_open` from the call of `socket` on.
  unfoldable pub create_and_bind : Socket → World → Option (ℤ × Socket × World)
  create_and_bind s w = let (fd, created) = net.create w in with_descriptor fd s created

  -- `socket_open`
  unfoldable pub socket_open : Socket → World → Option (ℤ × Socket × World)
  socket_open s w =
      let (ret, closed, w') = socket_close s w in
      if is_zero ret then create_and_bind closed w' else some (ret, closed, w')

  -- `socket_release`: the handle is null afterwards.
  unfoldable pub socket_release : Option Socket → World → ℤ × World
  socket_release none w = (pos 0, w)
  socket_release (some s) w = let (ret, _, w') = socket_close s w in (ret, w')

  -- `socket_init`; the first argument says whether `calloc` gives memory.
  unfoldable pub socket_init :
      Bool → Option SocketConfig → World → Option (ℤ × Option Socket × World)
  socket_init memory none w = some (einval, none, w)
  socket_init false (some config) w = some (enomem, none, w)
  socket_init true (some config) w =
      socket_open (record { config = config; fd = 0 }) w >>= λ (ret, s, w').
      if is_zero ret
      then some (ret, some s, w')
      else (let (_, w'') = socket_release (some s) w' in some (ret, none, w''))

  -- `socket_read` behind `recvfrom`; the last argument is what the `goto again` does.
  unfoldable pub on_received :
      Socket
      → List ℕ
      → (List ℕ → World → Option (ℤ × List ℕ × World))
      → Received
      → World
      → Option (ℤ × List ℕ × World)
  on_received s buffer again (failed k) w = some (negsuc k, buffer, w)
  on_received s buffer again (datagram sender bytes) w = write_block buffer 0 bytes >>= λ stored.
      if strncmp_eq 32 s.config.ip_address sender
      then some (pos (length bytes), stored, w)
      else again stored w

  -- `socket_read` from the label `again` on. The rounds are bounded by fuel; the outer `none` is a
  -- fault or the end of the fuel, and the block is the caller's buffer.
  unfoldable pub receive_from : ℕ → Socket → List ℕ → ℕ → World → Option (ℤ × List ℕ × World)
  receive_from zero s buffer size w = none
  receive_from (suc fuel) s buffer size w =
      let (event, w') = net.receive w s.fd size in
      on_received s buffer (λ stored w''. receive_from fuel s stored size w'') event w'

  unfoldable pub socket_read :
      ℕ → Option Socket → Option (List ℕ) → ℕ → World → Option (ℤ × Option (List ℕ) × World)
  socket_read fuel none buffer size w = some (einval, buffer, w)
  socket_read fuel (some s) none size w = some (einval, none, w)
  socket_read fuel (some s) (some buffer) size w =
      if s.fd == 0
      then some (enodev, some buffer, w)
      else (receive_from fuel s buffer size w >>= λ (ret, stored, w'). some (ret, some stored, w'))

  unfoldable pub socket_write : Option Socket → Option (List ℕ) → World → ℤ × World
  socket_write none bytes w = (einval, w)
  socket_write (some s) none w = (einval, w)
  socket_write (some s) (some bytes) w =
      if s.fd == 0 then (enodev, w) else net.send w s.fd s.config.ip_address s.config.port bytes
