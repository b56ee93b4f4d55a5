-- ===== src/Socket/Tests.antt =====
-- Sockets on a concrete network.
use vban.Prelude.{
  zero, suc, ltb, ◌&&◌, ◌||◌, not, ◌==◌, if◌then◌else◌, Bool, false, length, ℕ, ◌+◌, ◌≡◌, refl, ap,
  arith, List, [], ◌∷◌, Option, none, some, true, replicate,
}
use vban.Prelude.Int.{ℤ, pos, negsuc}
use vban.Prelude.Memory.{splice}
use vban.Prelude.CString.{strncmp_eq}
use vban.Socket.{
  Net, Socket, socket_open, socket_close, socket_release, create_and_bind, with_descriptor,
  bind_or_broadcast, failed, datagram, socket_init, socket_read,
}
use vban.Socket.Receiving.{
  Skips, done, skip, Delivered, socket_read_delivers, socket_read-Delivered,
}
use vban.Socket.Opening.{receiver}
use vban.Socket.Descriptors.{DescriptorLaws, IsBalanced, socket_init-IsBalanced}
use vban.Samples.{packet, wire, peer, receiving, Queue, empty, two_waiting}

abbrev block : List ℕ
block = replicate 40 0

abbrev one_waiting : Queue
one_waiting = record two_waiting { inbox = datagram peer packet ∷ [] }

abbrev after_other : List ℕ
after_other = splice block 0 (1 ∷ 2 ∷ [])

other_first : Skips wire receiving 40 1 two_waiting block one_waiting after_other
unfolding strncmp_eq
other_first = skip refl refl (omega arith) done

peer_matches : strncmp_eq 32 receiving.config.ip_address peer ≡ true
unfolding strncmp_eq
peer_matches = refl

socket_read_delivers_example :
    socket_read wire (1 + 1) (some receiving) (some block) 40 two_waiting
    ≡ some (pos 36, some (splice after_other 0 packet), empty)
unfolding splice
socket_read_delivers_example =
    socket_read_delivers wire receiving 40 0 (omega arith) other_first refl peer_matches
      (omega arith)

reads_second :
    socket_read wire 2 (some receiving) (some block) 40 two_waiting
    ≡ some (pos 36, some (splice after_other 0 packet), empty)
unfolding splice
reads_second =
    socket_read_delivers wire receiving 40 0 (omega arith) other_first refl peer_matches
      (omega arith)

socket_read-Delivered_example :
    Delivered wire receiving 40 two_waiting block (pos 36) (splice after_other 0 packet) empty
socket_read-Delivered_example =
    socket_read-Delivered wire receiving 40 2 block two_waiting (pos 36)
      (splice after_other 0 packet) empty (omega arith) reads_second

-- A system with a table of descriptors: the number of the last one, and which are open. A port of 0 or
-- below is taken.
record Table : Type 0 where
  last : ℕ
  flags : ℕ → Bool

abbrev table_open : Table → ℕ → Bool
table_open t g = ltb g (suc t.last) && t.flags g

abbrev refuses : ℤ → Bool
refuses (pos (suc n)) = false
refuses (pos zero) = true
refuses (negsuc k) = true

abbrev system : Net Table
system = record {
  create =
      λ t. let fd = suc t.last in (pos fd, record { last = fd; flags = λ g. g == fd || t.flags g });
  bind_port = λ t fd port. (if refuses port then negsuc 0 else pos 0, t);
  set_broadcast = λ t fd. (pos 0, t);
  close_fd = λ t fd. (pos 0, record t { flags = λ g. not (g == fd) && t.flags g });
  errno = λ t. pos 98;
  receive = λ t fd size. (failed 4, t);
  send = λ t fd ip port bytes. (pos (length bytes), t);
}

created_lem :
    (t t' : Table) (fd : ℕ)
    → system.create t ≡ (pos fd, t')
    → (table_open t fd ≡ false) × ((g : ℕ) → table_open t' g ≡ (g == fd || table_open t g))
created_lem t t' fd e =
    let same_fd : suc t.last ≡ fd =
      ap (λ (z : ℤ). elim z [ pos n ↦ n | negsuc n ↦ 0 ]) (ap (λ r. r.0) e) in
    let same_table : (system.create t).1 ≡ t' = ap (λ r. r.1) e in
    rw (← same_fd, ← same_table) (ground arith, λ g. ground arith)

system-DescriptorLaws : DescriptorLaws system table_open
system-DescriptorLaws = record {
  created = created_lem;
  not_created = λ t t' k g e. absurd (cc);
  bind_keeps = λ t fd g port. refl;
  broadcast_keeps = λ t fd g. refl;
  closed = λ t fd g. ground arith;
  bind_reports = λ t fd port e. refl;
  broadcast_reports = λ t fd e. refl;
}

-- Descriptors 0 and 1 are open, and 3 is the next.
abbrev started : Table
started = record { last = 2; flags = λ g. g == 0 || g == 1 }

socket_init-IsBalanced_example :
    (ret : ℤ) × (s : Option Socket) × (w' : Table) × (socket_init system true
        (some (receiver peer (pos 0)))
        started
      ≡ some (ret, s, w'))
    × IsBalanced system table_open (receiver peer (pos 0)) started ret s w'
socket_init-IsBalanced_example =
    socket_init-IsBalanced system table_open system-DescriptorLaws (receiver peer (pos 0)) started
      refl (omega arith)

no_descriptor_left :
    socket_init system true (some (receiver peer (pos 0))) started
    ≡ some (
      pos 98,
      none,
      record { last = 3; flags = λ g. not (g == 3) && (g == 3 || (g == 0 || g == 1)) },
    )
unfolding socket_init socket_open socket_close socket_release create_and_bind with_descriptor
    bind_or_broadcast
no_descriptor_left = refl
