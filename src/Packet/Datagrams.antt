-- ===== src/Packet/Datagrams.antt =====
-- The datagrams of a stream: what the emitter makes of one block of audio after another, and what the
-- functions of src/common/packet.c find in such a datagram.
use vban.Prelude.{
  ℕ, ◌+◌, ◌-◌, ◌*◌, ◌≤◌, ◌≡◌, refl, sym, ap, ◌∙◌, arith, List, [], ◌∷◌, ◌++◌, some, length,
  length-append, drop,
}
use vban.Prelude.Int.{pos}
use vban.Prelude.Memory.{
  IsBytes, slice, splice, append-IsBytes, drop-append, take-append, length-splice, splice-IsBytes,
}
use vban.Prelude.Memory.Slices.{slice-append_across}
use mathlib.Core.List.{append_assoc}
use vban.Vban.Header.{Header, IsHeader, header_bytes, read_header, write_header}
use vban.Vban.Header.Laws.{
  read_header-write_header, read_header-IsHeader, length-header_bytes, header_bytes-IsBytes,
}
use vban.Stream.{StreamConfig}
use vban.Packet.{packet_check, content_fields}
use vban.Packet.Prepared.{
  Announces, IsPrepared, frame_bytes, accepted, content_fields-IsHeader, content_fields-Announces,
  frames_byte,
}

-- A header and the audio behind it.
pub record Datagram : Type 0 where
  pub header : Header
  pub block : List ℕ

-- What is sent.
abbrev pub bytes_of : Datagram → List ℕ
bytes_of g = header_bytes g.header ++ g.block

abbrev pub contents : List Datagram → List (List ℕ)
contents [] = []
contents (g ∷ gs) = bytes_of g ∷ contents gs

abbrev pub blocks_of : List Datagram → List (List ℕ)
blocks_of [] = []
blocks_of (g ∷ gs) = g.block ∷ blocks_of gs

-- The datagrams that follow the header `h`, one for each block: only the numbers of samples and of the
-- frame change from one header to the next.
abbrev pub datagrams : Header → List (List ℕ) → List Datagram
datagrams h [] = []
datagrams h (block ∷ blocks) =
    let h' = content_fields h (length block) in
    record { header = h'; block = block } ∷ datagrams h' blocks

-- A block of 1 to 256 whole frames that one packet can hold.
pub record IsBlock (c : StreamConfig) (block : List ℕ) : Type 0 where
  pub frames : ℕ
  pub whole : length block ≡ frames * frame_bytes c
  pub some_frame : 1 ≤ frames
  pub le : frames ≤ 256
  pub fits : length block ≤ 1436
  pub bytes : IsBytes block

-- A datagram of the stream.
pub record IsDatagram (name : List ℕ) (c : StreamConfig) (g : Datagram) : Type 0 where
  pub announces : Announces name c g.header
  pub header : IsHeader g.header
  pub block : IsBlock c g.block
  pub counted : g.header.format_nbs + 1 ≡ block.frames

abbrev pub AreBlocks : StreamConfig → List (List ℕ) → Type 0
AreBlocks c [] = Unit {0}
AreBlocks c (block ∷ blocks) = IsBlock c block × AreBlocks c blocks

module _ (name : List ℕ) (c : StreamConfig) where
  abbrev pub AreDatagrams : List Datagram → Type 0
  AreDatagrams [] = Unit {0}
  AreDatagrams (g ∷ gs) = IsDatagram name c g × AreDatagrams gs

  next_counted :
      (h : Header) (block : List ℕ)
      → Announces name c h
      → (b : IsBlock c block) → (content_fields h (length block)).format_nbs + 1 ≡ b.frames
  next_counted h block a b =
      ap (λ n. (content_fields h n).format_nbs + 1) b.whole
      ∙ frames_byte name c h b.frames a b.some_frame b.le

  pub next-IsDatagram :
      (h : Header) (block : List ℕ)
      → Announces name c h
      → IsHeader h
      → IsBlock c block
      → IsDatagram name c (record { header = content_fields h (length block); block = block })
  next-IsDatagram h block a v b = record {
    announces = content_fields-Announces name c h (length block) a;
    header = content_fields-IsHeader h (length block) v;
    block = b;
    counted = next_counted h block a b;
  }

  -- The emitter's buffer with the block behind its header.
  module _ (m block : List ℕ) (p : IsPrepared name c m) (b : IsBlock c block)
      (stored : slice m 28 (length block) ≡ block) where
    abbrev next : Datagram
    next = record { header = content_fields (read_header m) (length block); block = block }

    is_next : IsDatagram name c next
    is_next =
        next-IsDatagram (read_header m) block p.announces (read_header-IsHeader m p.bytes p.room) b

    pub set_content_sends : slice (write_header m next.header) 0 (length block + 28) ≡ bytes_of next
    unfolding write_header
    set_content_sends =
        let h' = next.header in
        let counted = length-header_bytes h' is_next.header in
        let size : length block + 28 - length (header_bytes h') ≡ length block =
          omega (arith, counted) in
        slice-append_across (header_bytes h') (drop 28 m) 0 (length block + 28) (omega arith)
          (omega (arith, counted))
        ∙ ap (λ n. header_bytes h' ++ slice m 28 n) size
        ∙ ap (λ l. header_bytes h' ++ l) stored

    pub set_content_checked :
        packet_check (some name) (some (write_header m next.header)) (length block + 28) ≡ pos 0
    unfolding packet_check
    set_content_checked =
        let swapped : length block + 28 ≡ 28 + b.frames * frame_bytes c = omega (arith, b.whole) in
        rw (read_header-write_header m next.header is_next.header, swapped)
          (accepted name c next.header b.frames is_next.announces is_next.header.nbc_u8
            (next_counted (read_header m) block p.announces b) b.le)

  pub length-bytes_of :
      (g : Datagram) → IsDatagram name c g → length (bytes_of g) ≡ 28 + length g.block
  length-bytes_of g d =
      omega (
        arith,
        length-append (header_bytes g.header) g.block,
        length-header_bytes g.header d.header,
      )

  -- A datagram at the front of the receiver's buffer.
  module _ (dest : List ℕ) (g : Datagram) (d : IsDatagram name c g) (room : 1464 ≤ length dest)
      (is_bytes : IsBytes dest) where
    abbrev received : List ℕ
    received = splice dest 0 (bytes_of g)

    abbrev behind : List ℕ
    behind = drop (0 + length (bytes_of g)) dest

    apart : received ≡ header_bytes g.header ++ (g.block ++ behind)
    unfolding splice
    apart = append_assoc (header_bytes g.header) g.block behind

    drop-received : drop 28 received ≡ g.block ++ behind
    drop-received =
        ap (λ l. drop 28 l) apart
        ∙ drop-append (header_bytes g.header) (g.block ++ behind) 28
            (length-header_bytes g.header d.header)

    written : write_header received g.header ≡ received
    unfolding write_header
    written = ap (λ l. header_bytes g.header ++ l) drop-received ∙ sym apart

    pub read_header-received : read_header received ≡ g.header
    read_header-received =
        ap read_header (sym written) ∙ read_header-write_header received g.header d.header

    pub received-IsPrepared : IsPrepared name c received
    received-IsPrepared = record {
      bytes =
          splice-IsBytes dest 0 (bytes_of g) (omega (arith, length-bytes_of g d, d.block.fits))
            is_bytes
            (append-IsBytes (header_bytes g.header) g.block (header_bytes-IsBytes g.header d.header)
              d.block.bytes);
      room = omega (
        arith,
        length-bytes_of g d,
        length-splice dest 0 (bytes_of g) (omega (arith, length-bytes_of g d, d.block.fits)),
      );
      announces = rw read_header-received d.announces;
    }

    pub received_block : slice received 28 (length (bytes_of g) - 28) ≡ g.block
    received_block =
        let size : length (bytes_of g) - 28 ≡ length g.block = omega (arith, length-bytes_of g d) in
        rw (drop-received, size) (take-append g.block behind (length g.block) refl)

    pub received_checked : packet_check (some name) (some received) (length (bytes_of g)) ≡ pos 0
    unfolding packet_check
    received_checked =
        let size : length (bytes_of g) ≡ 28 + d.block.frames * frame_bytes c =
          omega (arith, length-bytes_of g d, d.block.whole) in
        rw (read_header-received, size)
          (accepted name c g.header d.block.frames d.announces d.header.nbc_u8 d.counted d.block.le)
