-- ===== src/Audio/Writing.antt =====
-- `audio_write` as a whole: what the backend is given, and what the caller is told.
use vban.Prelude.{
  ap, ◌∙◌, ℕ, ◌^◌, ◌*◌, ◌/◌, ◌≤◌, ◌<◌, ◌≡◌, refl, arith, List, some, length, get_elem?, ◌==◌, false,
}
use vban.Prelude.Int.{is_negative, ℤ, pos}
use vban.Prelude.Memory.{slice, read_block_in}
use vban.Vban.{bit_resolution_size}
use vban.Audio.{Audio, audio_write, map_out, write_out, map_output_size, map_reverse_result}
use vban.Audio.Interface.{Backend, BackendLaws}
use vban.Audio.Channels.{map_channels}
use vban.Audio.Channels.Spec.{map_channels_lem}
use vban.Audio.Sizes.{
  result_hides_errors, result_no_map, output_frames, result_full, exact_quotient,
}

pub product_small : (x n : ℕ) → x ≤ 1436 → n ≤ 256 → x * n < 2 ^ 31
product_small x n hx hn = grind (arith, hx, hn)

module _ {Device : Type 0} (b : Backend Device) where
  -- With no map set the backend is given the caller's bytes.
  pub audio_write_unmapped :
      (a : Audio Device) (data_in : List ℕ) (size ss : ℕ)
      → get_elem? bit_resolution_size a.stream.bit_fmt ≡ some ss
      → a.map.nb_channels ≡ 0
      → size ≤ length data_in
      → let done = b.write_data a.device (slice data_in 0 size) in
        audio_write b (some a) (some data_in) size
        ≡ some (map_reverse_result a.stream a.map done.0, some (record a { device = done.1 }))
  unfolding audio_write map_out write_out map_output_size
  audio_write_unmapped a data_in size ss sized no_map fits =
      ground (arith, read_block_in data_in 0 size (omega arith))

  -- With no map set, a backend that keeps its contract and a block of at least `size` bytes, the backend
  -- is given the first `size` bytes of the block, and the caller its return code.
  pub audio_write_plain :
      (a : Audio Device) (data_in : List ℕ) (size ss : ℕ)
      → BackendLaws b
      → get_elem? bit_resolution_size a.stream.bit_fmt ≡ some ss
      → a.map.nb_channels ≡ 0
      → size ≤ length data_in
      → let done = b.write_data a.device (slice data_in 0 size) in
        audio_write b (some a) (some data_in) size
        ≡ some (done.0, some (record a { device = done.1 }))
  audio_write_plain a data_in size ss laws sized no_map fits =
      let done = b.write_data a.device (slice data_in 0 size) in
      audio_write_unmapped a data_in size ss sized no_map fits
      ∙ ap (λ z. some (z, some (record a { device = done.1 })))
          (result_no_map a.stream a.map done.0 no_map
            (laws.write_int a.device (slice data_in 0 size)))

  module _ (a : Audio Device) (data_in : List ℕ) (frames ss : ℕ)
      (sized : get_elem? bit_resolution_size a.stream.bit_fmt ≡ some ss) (some_byte : 0 < ss)
      (some_channel : 0 < a.stream.nb_channels) (channels : a.stream.nb_channels ≤ 256)
      (mapped : 0 < a.map.nb_channels) (array : a.map.nb_channels ≤ length a.map.channels)
      (room : length a.buffer ≡ 1436)
      (reads : frames * (ss * a.stream.nb_channels) ≤ length data_in)
      (clears : frames * (ss * a.stream.nb_channels) ≤ 1436)
      (writes : frames * (ss * a.map.nb_channels) ≤ 1436) where
    abbrev in_size : ℕ
    in_size = frames * (ss * a.stream.nb_channels)

    abbrev out_size : ℕ
    out_size = frames * (ss * a.map.nb_channels)

    small : out_size * a.stream.nb_channels < 2 ^ 31
    small = product_small out_size a.stream.nb_channels writes channels

    whole_frames : in_size / (ss * a.stream.nb_channels) ≡ frames
    whole_frames =
        exact_quotient frames (ss * a.stream.nb_channels) in_size
          (grind (arith, some_byte, some_channel)) refl

    -- For whole frames that fit the object's buffer before and after the map, the backend is given the
    -- mapped frames, and a backend that takes them all makes the call return the caller's size.
    pub audio_write_mapped :
        (out : List ℕ) × (map_channels ss a.stream.nb_channels in_size a.map data_in a.buffer
          ≡ some out)
        × (let done = b.write_data a.device (slice out 0 out_size) in
            audio_write b (some a) (some data_in) in_size
            ≡ some (
              map_reverse_result a.stream a.map done.0,
              some (record a { buffer = out; device = done.1 }),
            ))
        × ((b.write_data a.device (slice out 0 out_size)).0 ≡ pos out_size
            → map_reverse_result a.stream a.map (b.write_data a.device (slice out 0 out_size)).0
              ≡ pos in_size)
    unfolding audio_write map_out write_out
    audio_write_mapped =
        let (out, maps, same_length, _, _) =
          map_channels_lem ss a.stream.nb_channels in_size a.map data_in a.buffer some_byte reads
            array (omega arith) (rw whole_frames (omega arith)) in
        let unset : (a.map.nb_channels == 0) ≡ false = ground arith in
        let sizes : map_output_size a.stream a.map in_size ≡ some out_size =
          output_frames a.stream a.map frames ss some_channel mapped (omega (arith, small)) in
        (
          out,
          maps,
          rw (
            sized,
            unset,
            maps,
            sizes,
            unset,
            read_block_in out 0 out_size (omega (arith, same_length, room, writes)),
          ),
          λ full. rw full (result_full a.stream a.map frames ss mapped small (omega arith)),
        )

    -- Under a map of two or more channels, for whole frames that fit the object's buffer before and after
    -- the map, `audio_write` never returns a negative code, whatever code the backend returned.
    pub audio_write_hides_errors :
        2 ≤ a.map.nb_channels
        → (ret : ℤ) × (a' : Audio Device) × (audio_write b (some a) (some data_in) in_size
            ≡ some (ret, some a'))
          × (is_negative ret ≡ false)
    audio_write_hides_errors several =
        let (out, _, returns, _) = audio_write_mapped in
        let done = b.write_data a.device (slice out 0 out_size) in
        (
          map_reverse_result a.stream a.map done.0,
          record a { buffer = out; device = done.1 },
          returns,
          result_hides_errors a.stream a.map done.0 several,
        )
