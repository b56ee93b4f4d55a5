-- ===== src/Packet/Content.antt =====
-- `packet_set_new_content` on a prepared buffer, whatever the size of the payload, and a prepared buffer
-- whose payload is written.
use vban.Prelude.{
  ℕ, ◌+◌, ◌≤◌, ◌≡◌, refl, sym, ◌∙◌, ap, arith, List, ◌++◌, some, false, length, length-append,
  length-take, take, ◌==◌,
}
use vban.Prelude.Int.{pos}
use vban.Prelude.Memory.{IsBytes, splice, slice, append-IsBytes, take-IsBytes, drop-append}
use vban.Vban.Header.{read_header, write_header}
use vban.Vban.Header.Laws.{
  read_header-write_header, read_header-IsHeader, write_header-IsBytes, length-write_header,
}
use vban.Vban.Header.Copied.{read_header-copied}
use vban.Stream.{StreamConfig}
use vban.Packet.{packet_set_new_content, content_fields, frame_size}
use vban.Packet.Prepared.{
  IsPrepared, content_fields-IsHeader, content_fields-Announces, frame_size-frame_bytes,
  frame_bytes-pos,
}

-- On a prepared buffer the header's two counters are stored.
pub set_content_lem :
    (name m : List ℕ) (c : StreamConfig) (size : ℕ)
    → IsPrepared name c m
    → packet_set_new_content (some m) size
      ≡ some (pos 0, some (write_header m (content_fields (read_header m) size)))
unfolding packet_set_new_content
set_content_lem name m c size p =
    let sized : (frame_size (read_header m) == 0) ≡ false =
      ground (arith, frame_bytes-pos p.announces, frame_size-frame_bytes p.announces) in
    rw sized refl

-- Then the buffer stays prepared, of the same length.
pub written-IsPrepared :
    (name m : List ℕ) (c : StreamConfig) (size : ℕ)
    → IsPrepared name c m
    → let m' = write_header m (content_fields (read_header m) size) in
      IsPrepared name c m'
      × (length m' ≡ length m)
      × (read_header m' ≡ content_fields (read_header m) size)
written-IsPrepared name m c size p =
    let h = read_header m in
    let h' = content_fields h size in
    let v' = content_fields-IsHeader h size (read_header-IsHeader m p.bytes p.room) in
    let back = read_header-write_header m h' v' in
    let long = length-write_header m h' v' p.room in
    (
      record {
        bytes = write_header-IsBytes m h' p.bytes v';
        room = rw long p.room;
        announces = rw back (content_fields-Announces name c h size p.announces);
      },
      long,
      back,
    )

-- There is no fault.
pub set_content-IsPrepared :
    (name m : List ℕ) (c : StreamConfig) (size : ℕ)
    → IsPrepared name c m
    → (m' : List ℕ) × (packet_set_new_content (some m) size ≡ some (pos 0, some m'))
      × IsPrepared name c m'
      × (length m' ≡ length m)
set_content-IsPrepared name m c size p =
    let (p', long, back) = written-IsPrepared name m c size p in
    (
      write_header m (content_fields (read_header m) size),
      set_content_lem name m c size p,
      p',
      long,
    )

module _ (m payload : List ℕ) (room : 28 ≤ length m) where
  with_payload_front : splice (take 28 m ++ payload) 0 (slice m 0 28) ≡ take 28 m ++ payload
  unfolding splice
  with_payload_front =
      let front : length (take 28 m) ≡ 28 = omega (arith, length-take 28 m, room) in
      ap (λ l. take 28 m ++ l)
        (drop-append (take 28 m) payload (0 + length (take 28 m)) (omega arith))

  pub read_header-with_payload : read_header (take 28 m ++ payload) ≡ read_header m
  read_header-with_payload =
      ap read_header (sym with_payload_front)
      ∙ read_header-copied m (take 28 m ++ payload) 28 room
          (omega (arith, length-append (take 28 m) payload, length-take 28 m, room)) (omega arith)

-- A payload of bytes behind the header of a prepared buffer.
pub payload-IsPrepared :
    (name m payload : List ℕ) (c : StreamConfig)
    → IsPrepared name c m
    → IsBytes payload
    → IsPrepared name c (take 28 m ++ payload)
payload-IsPrepared name m payload c p is_bytes = record {
  bytes = append-IsBytes (take 28 m) payload (take-IsBytes 28 m p.bytes) is_bytes;
  room = omega (arith, length-append (take 28 m) payload, length-take 28 m, p.room);
  announces = rw (read_header-with_payload m payload p.room) p.announces;
}
