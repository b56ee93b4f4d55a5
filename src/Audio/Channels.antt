-- ===== src/Audio/Channels.antt =====
-- `audio_map_channels` of src/common/audio.c: the samples of the chosen channels, copied frame by
-- frame from one block to another. An access outside a block faults, as does a division by zero.
pub mod Cells
pub mod Copy
pub mod Spec
pub mod Overflow
use vban.Prelude.{
  ℕ, zero, suc, ◌+◌, ◌*◌, ◌/◌, List, Option, none, some, get_elem?, get_or, ltb, ◌==◌,
  if◌then◌else◌, ◌>>=◌,
}
use vban.Prelude.Memory.{read_block, write_block, clear_block}

-- `struct audio_map_config_t`: `channels` is an array of 256, of which `nb_channels` are used.
pub record MapConfig : Type 0 where
  pub channels : List ℕ
  pub nb_channels : ℕ

-- The inner loop for channel `chan` of the output, which is channel `source` of the input: the
-- frames left, the frame, and the block that is written.
unfoldable pub copy_frames :
    (sample_size stream_channels map_channels source chan : ℕ)
    → List ℕ
    → ℕ
    → ℕ
    → List ℕ
    → Option (List ℕ)
copy_frames ss n m source chan orig zero frame dest = some dest
copy_frames ss n m source chan orig (suc left) frame dest = do
  sample ← read_block orig (frame * (ss * n) + source * ss) ss
  dest' ← write_block dest (frame * (ss * m) + chan * ss) sample
  copy_frames ss n m source chan orig left (frame + 1) dest'

-- The body of the outer loop: a channel that the stream does not have is left out.
unfoldable pub copy_channel :
    (sample_size stream_channels map_channels size chan source : ℕ)
    → List ℕ
    → List ℕ
    → Option (List ℕ)
copy_channel ss n m size chan source orig dest =
    if ltb source n
    then if ss * n == 0 then none else copy_frames ss n m source chan orig (size / (ss * n)) 0 dest
    else some dest

-- The outer loop: the channels left, and the channel.
unfoldable pub copy_channels :
    (sample_size stream_channels size : ℕ) → MapConfig → List ℕ → ℕ → ℕ → List ℕ → Option (List ℕ)
copy_channels ss n size map orig zero chan dest = some dest
copy_channels ss n size map orig (suc left) chan dest = do
  source ← get_elem? map.channels chan
  dest' ← copy_channel ss n map.nb_channels size chan source orig dest
  copy_channels ss n size map orig left (chan + 1) dest'

-- `audio_map_channels` from `orig` into `dest`, at a map that is set: `size` bytes are cleared, then
-- the channels are copied.
unfoldable pub map_channels :
    (sample_size stream_channels size : ℕ) → MapConfig → List ℕ → List ℕ → Option (List ℕ)
map_channels ss n size map orig dest = do
  cleared ← clear_block dest size
  copy_channels ss n size map orig map.nb_channels 0 cleared
