-- ===== src/Socket/Descriptors.antt =====
-- The descriptors that `socket_init` and `socket_release` open and close.
use vban.Prelude.{
  ℕ, zero, suc, ◌-◌, ◌≤◌, ◌<◌, ◌≡◌, refl, sym, ◌∙◌, arith, Bool, true, false, if◌then◌else◌, not,
  ◌&&◌, ◌||◌, inl, inr, Bool-cases, Option, none, some, length, ltb, ◌==◌, drop,
}
use vban.Prelude.Int.{ℤ, pos, negsuc, is_negative, is_zero}
use vban.Prelude.CString.{text_of, codes, strncmp_eq}
use vban.Socket.{
  Net, Socket, SocketConfig, SocketDirection, socket_in, socket_out, socket_close,
  bind_or_broadcast, with_descriptor, create_and_bind, socket_open, socket_init, socket_release,
  socket_is_broadcast_address,
}

-- What the system promises of its table of descriptors: `is_open w fd` says that `fd` is open. A new
-- descriptor was not open before.
pub record DescriptorLaws {World : Type 0} (net : Net World) (is_open : World → ℕ → Bool)
    : Type 0 where
  pub created :
      (w w' : World) (fd : ℕ)
      → net.create w ≡ (pos fd, w')
      → (is_open w fd ≡ false) × ((g : ℕ) → is_open w' g ≡ (g == fd || is_open w g))
  pub not_created :
      (w w' : World) (k g : ℕ) → net.create w ≡ (negsuc k, w') → is_open w' g ≡ is_open w g
  pub bind_keeps :
      (w : World) (fd g : ℕ) (port : ℤ) → is_open (net.bind_port w fd port).1 g ≡ is_open w g
  pub broadcast_keeps : (w : World) (fd g : ℕ) → is_open (net.set_broadcast w fd).1 g ≡ is_open w g
  pub closed :
      (w : World) (fd g : ℕ) → is_open (net.close_fd w fd).1 g ≡ (not (g == fd) && is_open w g)
  pub bind_reports :
      (w : World) (fd : ℕ) (port : ℤ)
      → is_negative (net.bind_port w fd port).0 ≡ true
      → is_zero (net.errno (net.close_fd (net.bind_port w fd port).1 fd).1) ≡ false
  pub broadcast_reports :
      (w : World) (fd : ℕ)
      → is_negative (net.set_broadcast w fd).0 ≡ true
      → is_zero (net.errno (net.close_fd (net.set_broadcast w fd).1 fd).1) ≡ false

module _ {World : Type 0} (net : Net World) (is_open : World → ℕ → Bool) where
  -- Between two states the descriptor `fd` was opened, and no other one was opened or closed.
  pub record IsOpening (fd : ℕ) (w w' : World) : Type 0 where
    pub positive : 0 < fd
    pub was_closed : is_open w fd ≡ false
    pub one_more : (g : ℕ) → is_open w' g ≡ (g == fd || is_open w g)

  -- What `socket_init` leaves behind: an open socket, or none, and then no descriptor more than before.
  pub data IsBalanced (config : SocketConfig) (w : World) : ℤ → Option Socket → World → Type 0 where
    opened :
        {w' : World} (fd : ℕ)
        → IsOpening fd w w'
        → ((g : ℕ)
            → is_open (socket_release net (some (record { config = config; fd = fd })) w').1 g
              ≡ is_open w g)
        → IsBalanced config w (pos 0) (some (record { config = config; fd = fd })) w'
    refused :
        {w' : World} (ret : ℤ)
        → is_zero ret ≡ false
        → ((g : ℕ) → is_open w' g ≡ is_open w g)
        → IsBalanced config w ret none w'

  -- What `socket_open` leaves behind.
  data IsBound (config : SocketConfig) (w : World) : ℤ → Socket → World → Type 0 where
    bound :
        {w' : World} (fd : ℕ)
        → IsOpening fd w w'
        → IsBound config w (pos 0) (record { config = config; fd = fd }) w'
    unbound :
        {w' : World} (ret : ℤ)
        → is_zero ret ≡ false
        → ((g : ℕ) → is_open w' g ≡ is_open w g)
        → IsBound config w ret (record { config = config; fd = 0 }) w'

  module _ (laws : DescriptorLaws net is_open) where
    -- What was closed is not 0, which is open.
    closed-positive : (w : World) (fd : ℕ) → is_open w 0 ≡ true → is_open w fd ≡ false → 0 < fd
    closed-positive w zero input closed = absurd (cc)
    closed-positive w (suc n) input closed = omega arith

    -- Closing the one descriptor that was opened gives the table from before.
    close-IsOpening :
        (fd : ℕ) (w w' : World)
        → IsOpening fd w w'
        → (g : ℕ) → is_open (net.close_fd w' fd).1 g ≡ is_open w g
    close-IsOpening fd w w' o g = elim (Bool-cases (g == fd)) [
      | inl same ↦
          let here : g ≡ fd = ground arith in
          rw (laws.closed w' fd g, same) (rw here (sym o.was_closed))
      | inr other ↦ rw (laws.closed w' fd g, other) (rw (o.one_more g, other) refl)
    ]

    release-IsOpening :
        (config : SocketConfig) (fd : ℕ) (w w' : World)
        → IsOpening fd w w'
        → (g : ℕ)
        → is_open (socket_release net (some (record { config = config; fd = fd })) w').1 g
          ≡ is_open w g
    unfolding socket_release socket_close
    release-IsOpening config fd w w' o g =
        let nonzero : (fd == 0) ≡ false = ground (arith, o.positive) in
        rw nonzero (close-IsOpening fd w w' o g)

    IsOpening-kept :
        (fd : ℕ) (w v v' : World)
        → IsOpening fd w v
        → ((g : ℕ) → is_open v' g ≡ is_open v g)
        → IsOpening fd w v'
    IsOpening-kept fd w v v' o same = record {
      positive = o.positive;
      was_closed = o.was_closed;
      one_more = λ g. same g ∙ o.one_more g;
    }

    -- `bind` or `setsockopt` returned `ret`; a failure closes the descriptor.
    after_call :
        (config : SocketConfig) (fd : ℕ) (w v : World) (bad : Bool)
        → IsOpening fd w v
        → (bad ≡ true → is_zero (net.errno (net.close_fd v fd).1) ≡ false)
        → let s : Socket = record { config = config; fd = fd } in
          let (_, closed, v') = socket_close net s v in
          let failed : Option (ℤ × Socket × World) = some (net.errno v', closed, v') in
          (ret : ℤ) × (s' : Socket) × (w' : World) × ((if bad then failed else some (pos 0, s, v))
            ≡ some (ret, s', w'))
          × IsBound config w ret s' w'
    unfolding socket_close
    after_call config fd w v false o reports = (pos 0, _, v, refl, bound fd o)
    after_call config fd w v true o reports =
        let nonzero : (fd == 0) ≡ false = ground (arith, o.positive) in
        let ended = (net.close_fd v fd).1 in
        (
          net.errno ended,
          record { config = config; fd = 0 },
          ended,
          rw nonzero refl,
          unbound (net.errno ended) (reports refl) (close-IsOpening fd w v o),
        )

    bind_or_broadcast-IsBound :
        (direction : SocketDirection) (config : SocketConfig) (fd : ℕ) (w v : World)
        → IsOpening fd w v
        → 3 ≤ length (text_of config.ip_address)
        → (ret : ℤ) × (s : Socket) × (w' : World) × (bind_or_broadcast net direction
              (record { config = config; fd = fd })
              v
            ≡ some (ret, s, w'))
          × IsBound config w ret s w'
    unfolding bind_or_broadcast socket_is_broadcast_address
    bind_or_broadcast-IsBound socket_in config fd w v o long =
        let (ret, v') = net.bind_port v fd config.port in
        after_call config fd w v' (is_negative ret)
          (IsOpening-kept fd w v v' o (λ g. laws.bind_keeps v fd g config.port))
          (laws.bind_reports v fd config.port)
    bind_or_broadcast-IsBound socket_out config fd w v o long =
        let (ret, v') = net.set_broadcast v fd in
        let called =
          after_call config fd w v' (is_negative ret)
            (IsOpening-kept fd w v v' o (λ g. laws.broadcast_keeps v fd g))
            (laws.broadcast_reports v fd) in
        let ip = config.ip_address in
        let short : ltb (length (text_of ip)) 3 ≡ false = ground (arith, long) in
        elim (Bool-cases (strncmp_eq 3 (drop (length (text_of ip) - 3) ip) (codes "255"))) [
          | inl broadcast ↦ rw (short, broadcast) called
          | inr single ↦ rw (short, single) (pos 0, _, v, refl, bound fd o)
        ]

    with_descriptor-IsBound :
        (config : SocketConfig) (ret : ℤ) (w v : World)
        → net.create w ≡ (ret, v)
        → is_open w 0 ≡ true
        → 3 ≤ length (text_of config.ip_address)
        → (ret' : ℤ) × (s : Socket) × (w' : World) × (with_descriptor net ret
              (record { config = config; fd = 0 })
              v
            ≡ some (ret', s, w'))
          × IsBound config w ret' s w'
    unfolding with_descriptor
    with_descriptor-IsBound config (negsuc k) w v creates input long =
        (negsuc k, _, v, refl, unbound (negsuc k) refl (λ g. laws.not_created w v k g creates))
    with_descriptor-IsBound config (pos fd) w v creates input long =
        let (closed, more) = laws.created w v fd creates in
        bind_or_broadcast-IsBound config.direction config fd w v
          (record {
            positive = closed-positive w fd input closed;
            was_closed = closed;
            one_more = more;
          })
          long

    -- The tail of `socket_init`.
    initialise-IsBalanced :
        (config : SocketConfig) (w : World) {ret : ℤ} {s : Socket} {v : World}
        → IsBound config w ret s v
        → let (_, v') = socket_release net (some s) v in
          let done : Option (ℤ × Option Socket × World) = some (ret, some s, v) in
          (s' : Option Socket) × (w' : World) × ((if is_zero ret
              then done
              else some (ret, none, v'))
            ≡ some (ret, s', w'))
          × IsBalanced config w ret s' w'
    unfolding socket_release socket_close
    initialise-IsBalanced config w (bound fd o) =
        (some _, _, refl, opened fd o (release-IsOpening config fd w _ o))
    initialise-IsBalanced config w (unbound ret bad same) =
        (none, _, rw bad refl, refused ret bad same)

    -- With memory for the socket, an address of at least three characters, and descriptor 0 (the standard
    -- input) open, `socket_init` returns. It returns 0 and a socket with the configuration, whose descriptor is the only one that was opened, and
    -- `socket_release` then gives back the descriptors from before. Or it returns another code and no
    -- socket, and the same descriptors are open as before.
    pub socket_init-IsBalanced :
        (config : SocketConfig) (w : World)
        → is_open w 0 ≡ true
        → 3 ≤ length (text_of config.ip_address)
        → (ret : ℤ) × (s : Option Socket) × (w' : World) × (socket_init net true (some config) w
            ≡ some (ret, s, w'))
          × IsBalanced config w ret s w'
    unfolding socket_init socket_open create_and_bind socket_close
    socket_init-IsBalanced config w input long =
        let (ret, v) = net.create w in
        let (ret', s, v', opens, b) = with_descriptor-IsBound config ret w v refl input long in
        let (s', w', ends, balanced) = initialise-IsBalanced config w b in
        (ret', s', w', rw opens ends, balanced)
