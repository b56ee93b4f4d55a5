-- ===== src/Audio/Sizes.antt =====
-- The sizes and return codes of `audio_write` and `audio_read` under a channel map.
use vban.Prelude.{ℕ, ◌*◌, ◌/◌, ◌%◌, ◌^◌, ◌≤◌, ◌<◌, ◌≡◌, arith, some, false}
use vban.Prelude.Int.{ℤ, pos, is_negative, IsInt, as_uint, as_int-as_size, as_int_small}
use vban.Stream.{StreamConfig}
use vban.Audio.{map_output_size, map_reverse_result}
use vban.Audio.Channels.{MapConfig}

pub exact_quotient : (q d x : ℕ) → 0 < d → x ≡ q * d → x / d ≡ q
exact_quotient q d x h e = rw e (grind (arith, h))

le-product : (r d x : ℕ) → 0 < d → x ≡ r * d → r ≤ x
le-product r d x h e = rw e (grind (arith, h))

half_of_word : (w d : ℕ) → w < 2 ^ 32 → 2 ≤ d → w / d < 2 ^ 31
half_of_word w d h two = grind (arith, h, two)

-- With no map set the backend's code is returned as it is.
pub result_no_map :
    (s : StreamConfig) (map : MapConfig) (ret : ℤ)
    → map.nb_channels ≡ 0
    → IsInt ret
    → map_reverse_result s map ret ≡ ret
unfolding map_reverse_result
result_no_map s map ret e h = ground (arith, as_int-as_size ret h)

-- A whole number of frames of the stream becomes as many frames of the map, where the product with the
-- channels of the map fits a `size_t`.
pub output_frames :
    (s : StreamConfig) (map : MapConfig) (frames sample : ℕ)
    → 0 < s.nb_channels
    → 0 < map.nb_channels
    → frames * (sample * s.nb_channels) * map.nb_channels < 2 ^ 64
    → map_output_size s map (frames * (sample * s.nb_channels))
      ≡ some (frames * (sample * map.nb_channels))
unfolding map_output_size
output_frames s map frames sample hs hm small =
    let x = frames * (sample * s.nb_channels) * map.nb_channels in
    let wide : x % 2 ^ 64 ≡ x = omega arith in
    let e : x % 2 ^ 64 / s.nb_channels ≡ frames * (sample * map.nb_channels) =
      rw wide
        (exact_quotient (frames * (sample * map.nb_channels)) s.nb_channels x hs (omega arith)) in
    ground (arith, e)

-- A full write of whole mapped frames is reported in the bytes of the stream, where the sizes and their
-- product with the channels of the stream are below 2 ^ 31.
pub result_full :
    (s : StreamConfig) (map : MapConfig) (frames sample : ℕ)
    → 0 < map.nb_channels
    → frames * (sample * map.nb_channels) * s.nb_channels < 2 ^ 31
    → frames * (sample * map.nb_channels) < 2 ^ 31
    → map_reverse_result s map (pos (frames * (sample * map.nb_channels)))
      ≡ pos (frames * (sample * s.nb_channels))
unfolding map_reverse_result
result_full s map frames sample hm small small' =
    let p = frames * (sample * map.nb_channels) in
    let r = frames * (sample * s.nb_channels) in
    let e : p * s.nb_channels / map.nb_channels ≡ r =
      exact_quotient r map.nb_channels (p * s.nb_channels) hm (omega arith) in
    let less : r ≤ p * s.nb_channels =
      le-product r map.nb_channels (p * s.nb_channels) hm (omega arith) in
    let narrow : p % 2 ^ 32 ≡ p = omega arith in
    let narrow' : p * s.nb_channels % 2 ^ 32 ≡ p * s.nb_channels = omega arith in
    let whole : p % 2 ^ 32 * s.nb_channels % 2 ^ 32 / map.nb_channels ≡ r =
      rw (narrow, narrow') e in
    ground (arith, whole, as_int_small r (omega arith))

-- Under a map of two or more channels no code of the backend is reported as negative: an error is
-- turned into a number of bytes.
pub result_hides_errors :
    (s : StreamConfig) (map : MapConfig) (ret : ℤ)
    → 2 ≤ map.nb_channels
    → is_negative (map_reverse_result s map ret) ≡ false
unfolding map_reverse_result
result_hides_errors s map ret h =
    let w = as_uint ret * s.nb_channels % 2 ^ 32 in
    ground (arith, half_of_word w map.nb_channels (omega arith) h)
