-- ===== src/Packet/Payload.antt =====
-- The largest payload of a packet, for the format in its header.
use Prim.Native.Nat.{min}
use vban.Prelude.{
  ℕ, zero, suc, ◌+◌, ◌*◌, ◌/◌, ◌%◌, ◌≤◌, ◌<◌, ◌≡◌, ◌↔◌, arith, List, some, none, bit_and-0x07,
}
use vban.Prelude.Int.{pos}
use vban.Vban.Header.{Header, read_header}
use vban.Packet.{frame_size, packet_get_max_payload_size}
use vban.Packet.Check.{sample_size_of, sample_size_of-pos_iff}

pub frame_size_lem :
    (h : Header) → frame_size h ≡ (h.format_nbc + 1) * sample_size_of (h.format_bit % 8)
unfolding frame_size
frame_size_lem h = rw bit_and-0x07

factor_pos : (c s : ℕ) → 0 < (c + 1) * s → 0 < s
factor_pos c zero h = omega arith
factor_pos c (suc s) h = omega arith

pub frame_size-pos_iff : (h : Header) → (0 < frame_size h) ↔ (h.format_bit % 8 < 6)
frame_size-pos_iff h =
    let facts = sample_size_of-pos_iff (h.format_bit % 8) in
    (
      λ p.
          facts.0
            (factor_pos h.format_nbc (sample_size_of (h.format_bit % 8)) (rw frame_size_lem at p)),
      λ p. rw frame_size_lem (grind (arith, facts.1 p)),
    )

-- Where the format has a size, the payload is a whole number of frames, at most 256, that fits the
-- packet, and one more frame would break one of the two bounds.
pub max_payload_lem :
    (packet : List ℕ)
    → (read_header packet).format_bit % 8 < 6
    → (frames : ℕ) × (packet_get_max_payload_size (some packet)
        ≡ some (pos (frames * frame_size (read_header packet))))
      × (frames ≤ 256)
      × (frames * frame_size (read_header packet) ≤ 1436)
      × (frames < 256 → 1436 < (frames + 1) * frame_size (read_header packet))
unfolding packet_get_max_payload_size
max_payload_lem packet format =
    let f = frame_size (read_header packet) in
    let positive : 0 < f = (frame_size-pos_iff (read_header packet)).1 format in
    (
      min 256 (1436 / f),
      ground (arith, positive),
      omega arith,
      grind (arith, positive),
      λ h. grind (arith, positive, h),
    )

-- The computation faults on exactly the packets whose format has no size, 12I and 10I.
pub max_payload-none_iff :
    (packet : List ℕ)
    → (packet_get_max_payload_size (some packet) ≡ none) ↔ (6 ≤ (read_header packet).format_bit % 8)
unfolding packet_get_max_payload_size
max_payload-none_iff packet =
    let facts = frame_size-pos_iff (read_header packet) in ground (arith, facts)
