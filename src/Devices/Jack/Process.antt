-- ===== src/Devices/Jack/Process.antt =====
-- `jack_process_cb`: the samples of one period are taken out of the ring buffer, whose bytes lie in two
-- segments, and stored into the buffers of the ports.
pub mod Reading
pub mod Equivalence
use vban.Prelude.{
  ℕ, zero, suc, ◌+◌, ◌-◌, ◌*◌, ◌%◌, ◌^◌, ◌≤◌, ◌≡◌, Bool, true, false, List, [], ◌∷◌, ◌++◌, Option,
  none, some, length, drop, ltb, ◌==◌, if◌then◌else◌, ◌>>=◌,
}
use vban.Prelude.Memory.{read_block}

-- JACK's ring buffer; `create` gives a null pointer where there is no memory.
pub record Ringbuffer (Ring : Type 0) : Type 0 where
  pub create : ℕ → Option Ring
  pub write_space : Ring → ℕ
  pub write : Ring → List ℕ → Ring
  pub get_read_vector : Ring → List ℕ × List ℕ
  pub read_advance : Ring → ℕ → Ring

-- What its documentation says, over the bytes that wait in it.
pub record RingbufferLaws {Ring : Type 0} (ringbuffer : Ringbuffer Ring) : Type 0 where
  pub contents : Ring → List ℕ
  pub contents-vector :
      (r : Ring) → (ringbuffer.get_read_vector r).0 ++ (ringbuffer.get_read_vector r).1 ≡ contents r
  pub contents-write :
      (r : Ring) (bytes : List ℕ)
      → length bytes ≤ ringbuffer.write_space r
      → contents (ringbuffer.write r bytes) ≡ contents r ++ bytes
  pub contents-advance :
      (r : Ring) (n : ℕ)
      → n ≤ length (contents r)
      → contents (ringbuffer.read_advance r n) ≡ drop n (contents r)

-- The variables `ptr`, `len` and `index` of the callback: `moved` is `index == 1`, and `ptr` is an
-- offset into the second segment if `second`, otherwise into the first.
pub record Cursor : Type 0 where
  pub second : Bool
  pub offset : ℕ
  pub len : ℕ
  pub moved : Bool

abbrev pub start : Cursor
start = record { second = false; offset = 0; len = 0; moved = false }

module _ (sample_size : ℕ) (first second : List ℕ) where
  abbrev segment : Cursor → List ℕ
  segment c = if c.second then second else first

  -- The sample at `ptr`.
  unfoldable pub read_here : Cursor → Option (List ℕ × Cursor)
  read_here c = read_block (segment c) c.offset sample_size >>= λ bytes.
      some (bytes, record c { offset = c.offset + sample_size; len = c.len + sample_size })

  -- A sample that the end of the first segment cuts: its parts are copied into `sampleParts`, which
  -- has 8 bytes.
  unfoldable pub read_parts : Cursor → Option (List ℕ × Cursor)
  read_parts c =
      let head = drop c.offset (segment c) in
      if ltb 8 (length head)
      then none
      else (read_block second 0 (sample_size - length head) >>= λ tail. some (
        head ++ tail,
        record {
          second = true;
          offset = sample_size - length head;
          len = c.len + sample_size;
          moved = true;
        },
      ))

  -- The body of the inner loop up to the conversion.
  unfoldable pub read_sample : Cursor → Option (List ℕ × Cursor)
  read_sample c =
      if c.moved
      then read_here c
      else if ltb (length first) (c.len + sample_size)
      then read_parts c
      else if c.len == length first
      then read_here (record c { second = true; offset = 0; moved = true })
      else read_here c

  module _ {F : Type 0} (convert : List ℕ → F) where
    -- The inner loop: the channels left, the channel, and the frame. The stores into
    -- `buffers[channel][sample]` are listed in their order.
    unfoldable pub channel_loop : ℕ → ℕ → ℕ → Cursor → Option (List (ℕ × ℕ × F) × Cursor)
    channel_loop zero channel frame c = some ([], c)
    channel_loop (suc left) channel frame c = do
      (bytes, c') ← read_sample c
      (stores, c'') ← channel_loop left (suc channel) frame c'
      some ((channel, frame, convert bytes) ∷ stores, c'')

    -- The outer loop: the frames left, the number of channels, and the frame.
    unfoldable pub frame_loop : ℕ → ℕ → ℕ → Cursor → Option (List (ℕ × ℕ × F) × Cursor)
    frame_loop zero channels frame c = some ([], c)
    frame_loop (suc left) channels frame c = do
      (stores, c') ← channel_loop channels 0 frame c
      (stores', c'') ← frame_loop left channels (suc frame) c'
      some (stores ++ stores', c'')

-- `jack_process_cb` behind the fetch of the ports' buffers, for `nframes` frames of `channels`
-- channels: what is stored, and the ring buffer. Too few bytes: nothing is stored or taken.
unfoldable pub process :
    {F Ring : Type 0}
    → Ringbuffer Ring
    → (List ℕ → F)
    → (sample_size channels nframes : ℕ) → Ring
    → Option (List (ℕ × ℕ × F) × Ring)
process ringbuffer convert sample_size channels nframes ring =
    let (first, second) = ringbuffer.get_read_vector ring in
    if ltb (length first + length second) (nframes * channels % 2 ^ 32 * sample_size % 2 ^ 64)
    then some ([], ring)
    else (frame_loop sample_size first second convert nframes channels 0 start >>= λ (stores, c).
        some (stores, ringbuffer.read_advance ring c.len))
