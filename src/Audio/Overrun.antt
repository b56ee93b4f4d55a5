-- ===== src/Audio/Overrun.antt =====
-- `audio_write` under a channel map, where the mapped frames do and do not fit the object's buffer.
use vban.Prelude.{
  ℕ, ◌+◌, ◌-◌, ◌*◌, ◌/◌, ◌≤◌, ◌<◌, ◌≡◌, ◌↔◌, refl, arith, List, none, some, false, length,
  get_elem?, ◌==◌,
}
use native.Mathlib.Decide.{dec_lt}
use vban.Vban.{bit_resolution_size}
use vban.Audio.{Audio, audio_write, map_out}
use vban.Audio.Channels.Cells.{cell}
use vban.Audio.Channels.Overflow.{map_channels_overflow}
use vban.Audio.Interface.{Backend}
use vban.Audio.Sizes.{exact_quotient}
use vban.Audio.Writing.{audio_write_mapped}

-- The last sample of the last frame ends where the frames end.
cell_end :
    (ss m frames f last : ℕ)
    → last + 1 ≡ m
    → frames ≡ f + 1
    → cell ss m f last + ss ≡ frames * (ss * m)
cell_end ss m frames f last e here = rw (here, ← e) (omega arith)

module _ {Device : Type 0} (b : Backend Device) (a : Audio Device) (data_in : List ℕ)
    (frames ss last source : ℕ) (sized : get_elem? bit_resolution_size a.stream.bit_fmt ≡ some ss)
    (some_byte : 0 < ss) (used : last + 1 ≡ a.map.nb_channels)
    (array : a.map.nb_channels ≤ length a.map.channels)
    (at_last : get_elem? a.map.channels last ≡ some source)
    (present : source < a.stream.nb_channels) (channels : a.stream.nb_channels ≤ 256)
    (room : length a.buffer ≡ 1436) (some_frame : 1 ≤ frames)
    (reads : frames * (ss * a.stream.nb_channels) ≤ length data_in)
    (clears : frames * (ss * a.stream.nb_channels) ≤ 1436) where
  writes_outside :
      1436 < frames * (ss * a.map.nb_channels)
      → audio_write b (some a) (some data_in) (frames * (ss * a.stream.nb_channels)) ≡ none
  unfolding audio_write map_out
  writes_outside over =
      let size = frames * (ss * a.stream.nb_channels) in
      let m = a.map.nb_channels in
      let whole : size / (ss * a.stream.nb_channels) ≡ frames =
        exact_quotient frames (ss * a.stream.nb_channels) size (grind (arith, some_byte, present))
          refl in
      let unset : (m == 0) ≡ false = ground arith in
      let faults =
        map_channels_overflow ss a.stream.nb_channels size a.map data_in last source (frames - 1)
          a.buffer (omega arith) at_last present (rw whole (omega arith))
          (rw (cell_end ss m frames (frames - 1) last used (omega arith)) (omega arith)) in
      rw (sized, unset, faults)

  -- The last column of the map comes from a channel of the stream. Then a write of whole frames runs
  -- past the object's buffer for exactly the frames that are larger than it under the map.
  pub audio_write-none_iff :
      (audio_write b (some a) (some data_in) (frames * (ss * a.stream.nb_channels)) ≡ none)
      ↔ (1436 < frames * (ss * a.map.nb_channels))
  audio_write-none_iff = (
    λ faults. elim (dec_lt 1436 (frames * (ss * a.map.nb_channels))) [
      | yes over ↦ over
      | no fits ↦
          let (out, _, writes, _) =
            audio_write_mapped b a data_in frames ss sized some_byte (omega arith) channels
              (omega arith) array room reads clears (omega arith) in
          absurd (cc)
    ],
    writes_outside,
  )
