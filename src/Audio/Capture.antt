-- ===== src/Audio/Capture.antt =====
-- `audio_read` under a channel map: whole frames of the device, in the object's buffer and the caller's
-- block.
use vban.Prelude.{
  ℕ, ◌+◌, ◌*◌, ◌/◌, ◌%◌, ◌^◌, ◌≤◌, ◌<◌, ◌≡◌, ◌↔◌, refl, arith, List, none, some, false, length,
  get_elem?, ◌==◌,
}
use native.Mathlib.Decide.{dec_lt}
use vban.Prelude.Int.{pos, as_int_small}
use vban.Prelude.Memory.{splice, length-splice, write_block_in, write_block_out}
use vban.Vban.{bit_resolution_size}
use vban.Audio.{Audio, audio_read, store_read, read_in, map_in, map_reverse_input_size}
use vban.Audio.Channels.{map_channels}
use vban.Audio.Channels.Spec.{map_channels_lem}
use vban.Audio.Interface.{Backend}
use vban.Audio.Sizes.{exact_quotient, output_frames}
use vban.Audio.Writing.{product_small}

module _ {Device : Type 0} (b : Backend Device) (a : Audio Device) (data_out bytes : List ℕ)
    (d' : Device) (frames ss : ℕ) (sized : get_elem? bit_resolution_size a.stream.bit_fmt ≡ some ss)
    (some_byte : 0 < ss) (some_channel : 0 < a.stream.nb_channels)
    (channels : a.stream.nb_channels ≤ 256) (mapped : 0 < a.map.nb_channels)
    (array : a.map.nb_channels ≤ length a.map.channels) (room : length a.buffer ≡ 1436)
    (asked : frames * (ss * a.map.nb_channels) ≤ 1436)
    (got : b.read_data a.device (frames * (ss * a.stream.nb_channels))
      ≡ (pos (frames * (ss * a.stream.nb_channels)), bytes, d'))
    (full : length bytes ≡ frames * (ss * a.stream.nb_channels)) where
  abbrev device_size : ℕ
  device_size = frames * (ss * a.stream.nb_channels)

  abbrev block_size : ℕ
  block_size = frames * (ss * a.map.nb_channels)

  abbrev captured : Audio Device
  captured = record a { device = d'; buffer = splice a.buffer 0 bytes }

  unset : (a.map.nb_channels == 0) ≡ false
  unset = ground arith

  product : block_size * a.stream.nb_channels < 2 ^ 31
  product = product_small block_size a.stream.nb_channels asked channels

  asks : map_reverse_input_size a.stream a.map block_size ≡ device_size
  unfolding map_reverse_input_size
  asks =
      let narrow : block_size * a.stream.nb_channels % 2 ^ 64 ≡ block_size * a.stream.nb_channels =
        omega (arith, product) in
      rw (unset, narrow)
        (exact_quotient device_size a.map.nb_channels (block_size * a.stream.nb_channels) mapped
          (omega arith))

  -- The bytes that the backend stores do not fit the object's buffer.
  pub captures_outside :
      1436 < device_size → audio_read b (some a) (some data_out) block_size ≡ none
  unfolding audio_read store_read
  captures_outside over =
      rw (asks, got, unset, write_block_out a.buffer 0 bytes (omega (arith, full, room))) refl

  module _ (block : length data_out ≡ 1436) where
    -- A backend that reads as many whole frames as it is asked for, under a map whose frames fill at most
    -- 1436 bytes. If the device's frames fit the object's buffer of 1436 bytes, the caller's block of
    -- that size has the mapped frames, and the caller is told its own size.
    pub audio_read_mapped :
        device_size ≤ 1436
        → (out : List ℕ) × (map_channels ss a.stream.nb_channels device_size a.map
              (splice a.buffer 0 bytes)
              data_out
            ≡ some out)
          × (audio_read b (some a) (some data_out) block_size
              ≡ some (pos block_size, some captured, some out))
    unfolding audio_read store_read read_in map_in
    audio_read_mapped fits =
        let inside : 0 + length bytes ≤ length a.buffer = omega (arith, full, room) in
        let same = length-splice a.buffer 0 bytes inside in
        let whole : device_size / (ss * a.stream.nb_channels) ≡ frames =
          exact_quotient frames (ss * a.stream.nb_channels) device_size
            (grind (arith, some_byte, some_channel)) refl in
        let (out, maps, _, _, _) =
          map_channels_lem ss a.stream.nb_channels device_size a.map (splice a.buffer 0 bytes)
            data_out some_byte (omega (arith, same, room)) array (omega (arith, block))
            (rw whole (omega (arith, block))) in
        let sizes =
          output_frames a.stream a.map frames ss some_channel mapped (omega (arith, product)) in
        (
          out,
          maps,
          rw
              (
                asks,
                got,
                unset,
                write_block_in a.buffer 0 bytes inside,
                sized,
                unset,
                maps,
                sizes,
                as_int_small block_size (omega (arith, asked)),
              )
              refl,
        )

    -- Such a read runs past the object's buffer for exactly the frames that are larger than it on the
    -- device.
    pub audio_read-none_iff :
        (audio_read b (some a) (some data_out) block_size ≡ none) ↔ (1436 < device_size)
    audio_read-none_iff = (
      λ faults. elim (dec_lt 1436 device_size) [
        | yes over ↦ over
        | no fits ↦ let (out, _, reads) = audio_read_mapped (omega arith) in absurd (cc)
      ],
      captures_outside,
    )
