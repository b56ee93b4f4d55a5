-- ===== src/Audio/Reading.antt =====
-- `audio_read` as a whole: what the backend is asked for, and what the caller finds.
use vban.Prelude.{ℕ, ◌≤◌, ◌≡◌, refl, ap, arith, ◌>>=◌, List, some, length, get_elem?, ◌==◌, true}
use vban.Prelude.Int.{ℤ, pos, negsuc, IsInt, as_int_small}
use vban.Prelude.Memory.{splice, write_block_in}
use vban.Vban.{bit_resolution_size}
use vban.Audio.{
  Audio, audio_read, map_in, read_in, store_read, map_output_size, map_reverse_input_size,
}
use vban.Audio.Interface.{Backend, BackendLaws}

module _ {Device : Type 0} where
  -- With no map set the part behind the backend's read changes nothing.
  read_in_plain :
      (ret : ℤ) (a : Audio Device) (data_out : List ℕ) (ss : ℕ)
      → IsInt ret
      → get_elem? bit_resolution_size a.stream.bit_fmt ≡ some ss
      → a.map.nb_channels ≡ 0
      → read_in ret a data_out ≡ some (ret, some a, data_out)
  unfolding read_in map_in map_output_size
  read_in_plain (pos n) a data_out ss int sized no_map = ground (arith, as_int_small n int)
  read_in_plain (negsuc n) a data_out ss int sized no_map = refl

  store_read_plain :
      (a : Audio Device) (data_out bytes : List ℕ)
      → a.map.nb_channels ≡ 0
      → length bytes ≤ length data_out
      → store_read a data_out bytes ≡ some (a, splice data_out 0 bytes)
  unfolding store_read
  store_read_plain a data_out bytes no_map fits =
      ground (arith, write_block_in data_out 0 bytes (omega arith))

  -- With no map set, `audio_read` into a block of at least `size` bytes asks the backend for `size`
  -- bytes, leaves what the backend stores at the front of the block and the rest as it was, and
  -- returns the backend's code.
  pub audio_read_plain :
      (b : Backend Device) (a : Audio Device) (data_out : List ℕ) (size ss : ℕ)
      → BackendLaws b
      → get_elem? bit_resolution_size a.stream.bit_fmt ≡ some ss
      → a.map.nb_channels ≡ 0
      → size ≤ length data_out
      → let (ret, bytes, device) = b.read_data a.device size in
        audio_read b (some a) (some data_out) size
        ≡ some (ret, some (record a { device = device }), some (splice data_out 0 bytes))
  unfolding audio_read map_reverse_input_size
  audio_read_plain b a data_out size ss laws sized no_map fits =
      let got = b.read_data a.device size in
      let unset : (a.map.nb_channels == 0) ≡ true = ground arith in
      let stores =
        store_read_plain (record a { device = got.2 }) data_out got.1 no_map
          (omega (arith, laws.read_fits a.device size)) in
      let reads =
        read_in_plain got.0 (record a { device = got.2 }) (splice data_out 0 got.1) ss
          (laws.read_int a.device size) sized no_map in
      rw (unset, stores)
        (ap (λ o. o >>= λ (code, handle, out). some (code, handle, some out)) reads)
