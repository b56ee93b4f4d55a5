-- ===== src/Socket/Receiving.antt =====
-- Which datagrams `socket_read` returns, and which it passes over.
use vban.Prelude.{
  sym, some_inj, ap, ◌∙◌, ℕ, zero, suc, ◌+◌, ◌≤◌, ◌<◌, ◌≡◌, refl, arith, List, some, >>=-some,
  length, true, false, inl, inr, Bool-cases, ◌==◌,
}
use vban.Prelude.Int.{ℤ, pos, negsuc}
use vban.Prelude.Memory.{splice, write_block, write_block_in, write_block-some}
use vban.Prelude.CString.{strncmp_eq}
use vban.Socket.{Net, Socket, Received, failed, datagram, receive_from, on_received, socket_read}

module _ {World : Type 0} (net : Net World) (s : Socket) (size : ℕ) where
  -- `k` datagrams of other addresses arrive, each stored over the buffer: from one state of the
  -- system and the buffer to another.
  pub data Skips : ℕ → World → List ℕ → World → List ℕ → Type 0 where
    done : {w : World} {m : List ℕ} → Skips 0 w m w m
    skip :
        {k : ℕ} {w w' w'' : World} {m m'' sender bytes : List ℕ}
        → net.receive w s.fd size ≡ (datagram sender bytes, w')
        → strncmp_eq 32 s.config.ip_address sender ≡ false
        → length bytes ≤ length m
        → Skips k w' (splice m 0 bytes) w'' m''
        → Skips (suc k) w m w'' m''

  pub receive_other :
      (fuel : ℕ) {w w' : World} (m : List ℕ) {sender bytes : List ℕ}
      → net.receive w s.fd size ≡ (datagram sender bytes, w')
      → strncmp_eq 32 s.config.ip_address sender ≡ false
      → length bytes ≤ length m
      → receive_from net (suc fuel) s m size w ≡ receive_from net fuel s (splice m 0 bytes) size w'
  unfolding receive_from on_received
  receive_other fuel m {bytes = bytes} arrives other fits =
      rw (arrives, write_block_in m 0 bytes (omega arith), other)

  receive-Skips :
      {k : ℕ} {w w' : World} {m m' : List ℕ} (fuel all : ℕ)
      → all ≡ fuel + k
      → Skips k w m w' m'
      → receive_from net all s m size w ≡ receive_from net fuel s m' size w'
  receive-Skips {w = w} {m = m} fuel all e done =
      ap (λ f. receive_from net f s m size w) (omega (arith, e))
  receive-Skips fuel zero e (skip arrives other fits rest) = absurd (omega arith)
  receive-Skips fuel (suc all) e (skip arrives other fits rest) =
      receive_other all _ arrives other fits ∙ receive-Skips fuel all (omega (arith, e)) rest

  pub receive_same :
      (fuel : ℕ) {w w' : World} (m : List ℕ) {sender bytes : List ℕ}
      → net.receive w s.fd size ≡ (datagram sender bytes, w')
      → strncmp_eq 32 s.config.ip_address sender ≡ true
      → length bytes ≤ length m
      → receive_from net (suc fuel) s m size w ≡ some (pos (length bytes), splice m 0 bytes, w')
  unfolding receive_from on_received
  receive_same fuel m {bytes = bytes} arrives same fits =
      rw (arrives, write_block_in m 0 bytes (omega arith), same)

  -- With more fuel than datagrams of other addresses arrive first, `socket_read` returns the datagram
  -- of the configured address that comes next, at the front of the buffer, and its length.
  pub socket_read_delivers :
      {k : ℕ} {w w' w'' : World} {m m' sender bytes : List ℕ} (fuel : ℕ)
      → 0 < s.fd
      → Skips k w m w' m'
      → net.receive w' s.fd size ≡ (datagram sender bytes, w'')
      → strncmp_eq 32 s.config.ip_address sender ≡ true
      → length bytes ≤ length m'
      → socket_read net (suc fuel + k) (some s) (some m) size w
        ≡ some (pos (length bytes), some (splice m' 0 bytes), w'')
  unfolding socket_read
  socket_read_delivers {k} fuel is_open skips arrives same fits =
      let matched = receive_same fuel _ arrives same fits in
      let all = receive-Skips (suc fuel) (suc fuel + k) refl skips in ground (arith, all, matched)

  -- What `socket_read` may return, from one state of the system and the buffer to another: `recvfrom`
  -- gave datagrams of other addresses, and then an error, or a datagram of the configured address.
  pub data Delivered (w : World) (m : List ℕ) : ℤ → List ℕ → World → Type 0 where
    error :
        {k e : ℕ} {w1 w' : World} {m' : List ℕ}
        → Skips k w m w1 m'
        → net.receive w1 s.fd size ≡ (failed e, w')
        → Delivered w m (negsuc e) m' w'
    from_peer :
        {k : ℕ} {w1 w' : World} {m1 sender bytes : List ℕ}
        → Skips k w m w1 m1
        → net.receive w1 s.fd size ≡ (datagram sender bytes, w')
        → strncmp_eq 32 s.config.ip_address sender ≡ true
        → length bytes ≤ length m1
        → Delivered w m (pos (length bytes)) (splice m1 0 bytes) w'

  -- One more datagram of another address arrives before the others.
  skip-Delivered :
      {w v w' : World} {m sender bytes m' : List ℕ} {ret : ℤ}
      → net.receive w s.fd size ≡ (datagram sender bytes, v)
      → strncmp_eq 32 s.config.ip_address sender ≡ false
      → length bytes ≤ length m
      → Delivered v (splice m 0 bytes) ret m' w'
      → Delivered w m ret m' w'
  skip-Delivered arrives other fits (error skips fails) =
      error (skip arrives other fits skips) fails
  skip-Delivered arrives other fits (from_peer skips gets same room) =
      from_peer (skip arrives other fits skips) gets same room

  -- A datagram that is returned was stored, so the buffer has room for it.
  stored_fits :
      (fuel : ℕ) {w v : World} (m : List ℕ) {sender bytes : List ℕ} {out : ℤ × List ℕ × World}
      → net.receive w s.fd size ≡ (datagram sender bytes, v)
      → receive_from net (suc fuel) s m size w ≡ some out
      → length bytes ≤ length m
  unfolding receive_from on_received
  stored_fits fuel m {bytes = bytes} arrives e =
      let (stored, stores, rest) = >>=-some (write_block m 0 bytes) _ (rw arrives at e) in
      omega (arith, (write_block-some m 0 bytes stores).0)

  pub receive_failed :
      (fuel k : ℕ) {w v : World} (m : List ℕ)
      → net.receive w s.fd size ≡ (failed k, v)
      → receive_from net (suc fuel) s m size w ≡ some (negsuc k, m, v)
  unfolding receive_from on_received
  receive_failed fuel k m fails = rw fails refl

  -- The relation holds after one call of `recvfrom` if it holds of the calls that follow.
  first-Delivered :
      (fuel : ℕ) (m : List ℕ) (w : World) (event : Received) (v : World) {ret : ℤ} {m' : List ℕ}
      {w' : World}
      → net.receive w s.fd size ≡ (event, v)
      → ((stored : List ℕ)
          → receive_from net fuel s stored size v ≡ some (ret, m', w')
          → Delivered v stored ret m' w')
      → receive_from net (suc fuel) s m size w ≡ some (ret, m', w')
      → Delivered w m ret m' w'
  first-Delivered fuel m w (failed k) v {ret} {m'} {w'} fails later e =
      let same : (negsuc k, m, v) ≡ (ret, m', w') =
        some_inj (sym (receive_failed fuel k m fails) ∙ e) in
      let here : Delivered w m (negsuc k) m v = error done fails in
      rw (← ap (λ r. r.0) same, ← ap (λ r. r.1) same, ← ap (λ r. r.2) same) here
  first-Delivered fuel m w (datagram sender bytes) v {ret} {m'} {w'} arrives later e =
      let fits = stored_fits fuel m arrives e in
      elim (Bool-cases (strncmp_eq 32 s.config.ip_address sender)) [
        | inl matches ↦
            let same : (pos (length bytes), splice m 0 bytes, v) ≡ (ret, m', w') =
              some_inj (sym (receive_same fuel m arrives matches fits) ∙ e) in
            let here : Delivered w m (pos (length bytes)) (splice m 0 bytes) v =
              from_peer done arrives matches fits in
            rw (← ap (λ r. r.0) same, ← ap (λ r. r.1) same, ← ap (λ r. r.2) same) here
        | inr other ↦
            skip-Delivered arrives other fits
              (later (splice m 0 bytes) (sym (receive_other fuel m arrives other fits) ∙ e))
      ]

  receive-Delivered :
      (fuel : ℕ) (m : List ℕ) (w : World) {ret : ℤ} {m' : List ℕ} {w' : World}
      → receive_from net fuel s m size w ≡ some (ret, m', w')
      → Delivered w m ret m' w'
  unfolding receive_from
  receive-Delivered zero m w e = absurd (ground arith)
  receive-Delivered (suc fuel) m w e =
      let (event, v) = net.receive w s.fd size in
      first-Delivered fuel m w event v refl (λ stored. receive-Delivered fuel stored v) e

  -- Whatever the fuel, an open socket's `socket_read` that returns has called `recvfrom` until it failed
  -- or gave a datagram of the configured address, and passed over those of other addresses before. It
  -- returns the negative code, or the length of that datagram, whose bytes are at the front of the
  -- buffer; the system is as that last call left it.
  pub socket_read-Delivered :
      (fuel : ℕ) (m : List ℕ) (w : World) (ret : ℤ) (m' : List ℕ) (w' : World)
      → 0 < s.fd
      → socket_read net fuel (some s) (some m) size w ≡ some (ret, some m', w')
      → Delivered w m ret m' w'
  unfolding socket_read
  socket_read-Delivered fuel m w ret m' w' is_open e =
      let closed : (s.fd == 0) ≡ false = ground arith in
      let ((r, stored, v), returns, back) =
        >>=-some (receive_from net fuel s m size w) _ (rw closed at e) in
      receive-Delivered fuel m w (ground (arith, returns, back))
