-- ===== src/Session/Stopping.antt =====
-- How the receptor's run ends: `recvfrom` fails, and the program releases its device and its socket.
use vban.Prelude.{
  Bool, Option, none, ℕ, zero, suc, ◌+◌, ◌≡◌, ◌<◌, ◌≢◌, [], refl, ◌∙◌, arith, true, false, List,
  some, some_inj, length, still_running, exited, ◌==◌, ap, sym, Progress,
}
use vban.Prelude.Int.{pos}
use vban.Packet.Prepared.{IsPrepared}
use vban.Packet.Datagrams.{AreBlocks, datagrams}
use vban.Vban.Header.{read_header}
use vban.Stream.{StreamConfig}
use vban.Socket.{Net, Socket, failed, socket_read, socket_release}
use vban.Socket.Receiving.{receive_failed}
use vban.Audio.{Audio, audio_release}
use vban.Audio.Interface.{Backend, BackendLaws}
use vban.Receptor.{Receptor, on_read, receptor_step, receptor_loop, run_receptor}
use vban.Session.{Receives, write_all}
use vban.Session.Mixed.{Arrival, arrived, audio_of}
use vban.Session.Delivery.{AreDrawn, IsReceiving}
use vban.Session.Run.{drawn_loops}

module _ {Device World : Type 0} (b : Backend Device) (net : Net World) (fuel : ℕ)
    (name : List ℕ) where
  -- A round, by what it returned.
  loop_faults :
      (n : ℕ) (r : Receptor Device) (w : World)
      → receptor_step b net fuel name r w ≡ none
      → receptor_loop b net (suc n) fuel name r w ≡ none
  unfolding receptor_loop
  loop_faults n r w steps = rw steps refl

  loop_ends :
      (n : ℕ) (r : Receptor Device) (w : World) {r1 : Receptor Device} {w1 : World}
      → receptor_step b net fuel name r w ≡ some (false, r1, w1)
      → receptor_loop b net (suc n) fuel name r w ≡ some (exited (r1, w1))
  unfolding receptor_loop
  loop_ends n r w steps = rw steps refl

  loop_goes :
      (n : ℕ) (r : Receptor Device) (w : World) {r1 : Receptor Device} {w1 : World}
      → receptor_step b net fuel name r w ≡ some (true, r1, w1)
      → receptor_loop b net (suc n) fuel name r w ≡ receptor_loop b net n fuel name r1 w1
  unfolding receptor_loop
  loop_goes n r w steps = rw steps refl

  add_after :
      (rounds more all : ℕ) (r : Receptor Device) (w : World) {r' : Receptor Device} {w' : World}
      (o : Option (Bool × Receptor Device × World))
      → receptor_step b net fuel name r w ≡ o
      → receptor_loop b net (suc rounds) fuel name r w ≡ some (still_running (r', w'))
      → ((r1 : Receptor Device) (w1 : World)
          → receptor_loop b net rounds fuel name r1 w1 ≡ some (still_running (r', w'))
          → receptor_loop b net all fuel name r1 w1 ≡ receptor_loop b net more fuel name r' w')
      → receptor_loop b net (suc all) fuel name r w ≡ receptor_loop b net more fuel name r' w'
  add_after rounds more all r w none steps e later =
      absurd (ground (arith, sym (loop_faults rounds r w steps) ∙ e))
  add_after rounds more all r w (some (false, r1, w1)) steps e later =
      absurd (ground (arith, sym (loop_ends rounds r w steps) ∙ e))
  add_after rounds more all r w (some (true, r1, w1)) steps e later =
      loop_goes all r w steps ∙ later r1 w1 (sym (loop_goes rounds r w steps) ∙ e)

  -- Rounds that leave the program running are followed by those that are left.
  receptor_loop-add :
      (rounds more all : ℕ) (r : Receptor Device) (w : World) {r' : Receptor Device} {w' : World}
      → all ≡ rounds + more
      → receptor_loop b net rounds fuel name r w ≡ some (still_running (r', w'))
      → receptor_loop b net all fuel name r w ≡ receptor_loop b net more fuel name r' w'
  unfolding receptor_loop
  receptor_loop-add zero more all r w {r'} {w'} sum e =
      let state : Progress (Receptor Device × World) (Receptor Device × World)
          → Receptor Device × World =
        λ p. elim p [ still_running x ↦ x | exited x ↦ x ] in
      let same : (r, w) ≡ (r', w') = ap state (some_inj e) in
      let count : all ≡ more = omega (arith, sum) in
      ap (λ n. receptor_loop b net n fuel name r w) count
      ∙ ap (λ (x : Receptor Device × World). receptor_loop b net more fuel name x.0 x.1) same
  receptor_loop-add (suc rounds) more zero r w sum e = absurd (omega (arith, sum))
  receptor_loop-add (suc rounds) more (suc all) r w sum e =
      add_after rounds more all r w (receptor_step b net fuel name r w) refl e
        (λ r1 w1. receptor_loop-add rounds more all r1 w1 (omega (arith, sum)))

  receptor_step_fails :
      (s : Socket) (a : Audio Device) (m : List ℕ) (k more : ℕ) {w w' : World}
      → fuel ≡ suc more
      → 0 < s.fd
      → net.receive w s.fd 1464 ≡ (failed k, w')
      → receptor_step b net fuel name (record { socket = some s; audio = some a; buffer = m }) w
        ≡ some (false, record { socket = some s; audio = some a; buffer = m }, w')
  unfolding receptor_step on_read socket_read
  receptor_step_fails s a m k more {w} enough is_open fails =
      let closed : (s.fd == 0) ≡ false = ground (arith, is_open) in
      rw (enough, closed, receive_failed net s 1464 more k {w = w} m fails) refl

module _ {Speaker Space : Type 0} (b : Backend Speaker) (net : Net Space) (laws : BackendLaws b)
    (s : Socket) (name : List ℕ) (c : StreamConfig) (fuel : ℕ) where
  -- Of the datagrams for blocks of 1 to 256 whole frames some reach the receptor, at least one, in any
  -- order and any number of times, and between them packets of the same address that `packet_check`
  -- does not accept; behind them `recvfrom` fails. The receptor's device takes the parameters, and no
  -- map is set. Then, from one round more than there are arrivals on, the receptor has exited with 0: the
  -- blocks of exactly the datagrams that arrived were written to the device, in the order of arrival,
  -- the device was closed behind them, and the socket was released.
  pub receptor_stops :
      {v v' v'' : Space} (m : List ℕ) (blocks : List (List ℕ)) (xs : List Arrival)
      (t t' : Audio Speaker) (dest : List ℕ) (k more : ℕ)
      → IsPrepared name c m
      → AreBlocks c blocks
      → AreDrawn name xs (datagrams (read_header m) blocks)
      → audio_of xs ≢ []
      → IsReceiving b s c t t' dest
      → Receives net s v (arrived xs) v'
      → net.receive v' s.fd 1464 ≡ (failed k, v'')
      → run_receptor b net
          (length xs + suc more)
          (suc fuel)
          name
          (record { socket = some s; audio = some t; buffer = dest })
          v
        ≡ some (
            exited (
              pos 0,
              some (b.close_device (write_all b t'.device (audio_of xs))).1,
              (socket_release net (some s) v'').1,
            ))
  unfolding run_receptor receptor_loop audio_release
  receptor_stops {v} {v'} {v''} m blocks xs t t' dest k more p valid drawn some_block r received
        fails =
      let (dest', loops) =
        drawn_loops b net laws s name c fuel m blocks xs t t' dest p valid drawn some_block r
          received in
      let a = record t' { device = write_all b t'.device (audio_of xs) } in
      let last = receptor_step_fails b net (suc fuel) name s a dest' k fuel refl r.is_open fails in
      rw
        (
          receptor_loop-add b net (suc fuel) name (length xs) (suc more) (length xs + suc more) _ v
              refl loops,
          last,
        )
        refl
