-- ===== src/Socket/Opening.antt =====
-- `socket_init` and `socket_release`: which descriptor is open afterwards, and what the caller is told.
use vban.Prelude.{ℕ, ◌<◌, ◌≡◌, arith, List, none, some, true, false, ◌==◌}
use vban.Prelude.Int.{ℤ, pos, is_negative, is_zero}
use vban.Socket.{
  Net, SocketConfig, socket_in, socket_close, bind_or_broadcast, with_descriptor, create_and_bind,
  socket_open, socket_init, socket_release,
}

abbrev pub receiver : List ℕ → ℤ → SocketConfig
receiver ip port = record { direction = socket_in; ip_address = ip; port = port }

module _ {World : Type 0} (net : Net World) where
  -- A receiving socket on which everything succeeds is open under the descriptor that was created, with
  -- its configuration.
  pub init_receiver :
      (ip : List ℕ) (port : ℤ) (w w' w'' : World) (fd : ℕ) (ret : ℤ)
      → net.create w ≡ (pos fd, w')
      → net.bind_port w' fd port ≡ (ret, w'')
      → is_negative ret ≡ false
      → socket_init net true (some (receiver ip port)) w
        ≡ some (pos 0, some (record { config = receiver ip port; fd = fd }), w'')
  unfolding socket_init socket_open create_and_bind with_descriptor bind_or_broadcast socket_close
  init_receiver ip port w w' w'' fd ret creates binds good = rw (creates, binds, good)

  -- A bind that fails: the descriptor is closed once, the handle stays null, and the caller is told
  -- `errno`, where that is not 0.
  pub init_receiver_fails :
      (ip : List ℕ) (port : ℤ) (w w' w'' w''' : World) (fd : ℕ) (ret closing : ℤ)
      → 0 < fd
      → net.create w ≡ (pos fd, w')
      → net.bind_port w' fd port ≡ (ret, w'')
      → is_negative ret ≡ true
      → net.close_fd w'' fd ≡ (closing, w''')
      → is_zero (net.errno w''') ≡ false
      → socket_init net true (some (receiver ip port)) w ≡ some (net.errno w''', none, w''')
  unfolding socket_init socket_open create_and_bind with_descriptor bind_or_broadcast socket_close
      socket_release
  init_receiver_fails ip port w w' w'' w''' fd ret closing is_open creates binds bad closes set =
      let nonzero : (fd == 0) ≡ false = ground arith in
      rw (creates, binds, bad, nonzero, closes, set)
