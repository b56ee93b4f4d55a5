-- ===== src/Devices/Jack/Process/Equivalence.antt =====
-- The callback against a reference that reads each sample at its place in the waiting bytes.
use vban.Prelude.{
  ℕ, zero, suc, ◌+◌, ◌*◌, ◌%◌, ◌^◌, ◌≤◌, ◌<◌, ◌≡◌, refl, ap, ◌∙◌, arith, List, [], ◌∷◌, ◌++◌, some,
  false, length, length-append, drop, ltb, if◌then◌else◌, Bool-cases, inl, inr,
}
use vban.Prelude.Memory.{slice}
use vban.Devices.Jack.Process.{
  Ringbuffer, RingbufferLaws, Cursor, start, channel_loop, frame_loop, process,
}
use vban.Devices.Jack.Process.Reading.{IsAt, in_first, in_second, read_sample_lem}

module _ {F : Type 0} (convert : List ℕ → F) (ss channels : ℕ) (waiting : List ℕ) where
  -- The samples of a frame from `channel` on: sample `frame * channels + channel` of those that wait.
  abbrev pub reference_channels : ℕ → ℕ → ℕ → List (ℕ × ℕ × F)
  reference_channels zero channel frame = []
  reference_channels (suc left) channel frame =
      (channel, frame, convert (slice waiting ((frame * channels + channel) * ss) ss))
      ∷ reference_channels left (suc channel) frame

  abbrev pub reference : ℕ → ℕ → List (ℕ × ℕ × F)
  reference zero frame = []
  reference (suc left) frame = reference_channels channels 0 frame ++ reference left (suc frame)

IsAt-len :
    {ss : ℕ} {first second : List ℕ} {len : ℕ} {c : Cursor}
    → IsAt ss first second len c
    → c.len ≡ len
IsAt-len (in_first h) = refl
IsAt-len (in_second h) = refl

IsAt-cast :
    {ss : ℕ} {first second : List ℕ} {len len' : ℕ} {c : Cursor}
    → len ≡ len'
    → IsAt ss first second len c
    → IsAt ss first second len' c
IsAt-cast e at = rw e at at

module _ {F : Type 0} (convert : List ℕ → F) (ss channels : ℕ) (first second : List ℕ)
    (some_byte : 0 < ss) (small : ss ≤ 8) where
  abbrev total : ℕ
  total = length first + length second

  channel_loop_lem :
      (left channel frame : ℕ) {c : Cursor}
      → (frame * channels + channel + left) * ss ≤ total
      → IsAt ss first second ((frame * channels + channel) * ss) c
      → (c' : Cursor) × (channel_loop ss first second convert left channel frame c
          ≡ some (reference_channels convert ss channels (first ++ second) left channel frame, c'))
        × IsAt ss first second ((frame * channels + channel + left) * ss) c'
  unfolding channel_loop
  channel_loop_lem zero channel frame {c} fits at = (c, refl, IsAt-cast (omega arith) at)
  channel_loop_lem (suc left) channel frame {c} fits at =
      let (c', reads, at') = read_sample_lem ss first second some_byte small (omega arith) at in
      let (c'', rest, at'') =
        channel_loop_lem left (suc channel) frame {c = c'} (omega arith)
          (IsAt-cast (omega arith) at') in
      (c'', rw (reads, rest), IsAt-cast (omega arith) at'')

  frame_loop_lem :
      (left frame : ℕ) {c : Cursor}
      → (frame + left) * channels * ss ≤ total
      → IsAt ss first second (frame * channels * ss) c
      → (c' : Cursor) × (frame_loop ss first second convert left channels frame c
          ≡ some (reference convert ss channels (first ++ second) left frame, c'))
        × IsAt ss first second ((frame + left) * channels * ss) c'
  unfolding frame_loop
  frame_loop_lem zero frame {c} fits at = (c, refl, IsAt-cast (omega arith) at)
  frame_loop_lem (suc left) frame {c} fits at =
      let (c', row, at') =
        channel_loop_lem channels 0 frame (omega arith) (IsAt-cast (omega arith) at) in
      let (c'', rest, at'') =
        frame_loop_lem left (suc frame) {c = c'} (omega arith) (IsAt-cast (omega arith) at') in
      (c'', rw (row, rest), IsAt-cast (omega arith) at'')

-- What the callback should do with the bytes that wait: the stores, and the number of bytes it takes. If
-- fewer wait than the period needs, it stores and takes nothing.
abbrev pub expected :
    {F : Type 0} → (List ℕ → F) → (ss channels nframes : ℕ) → List ℕ → List (ℕ × ℕ × F) × ℕ
expected convert ss channels nframes waiting =
    if ltb (length waiting) (nframes * channels * ss)
    then ([], 0)
    else (reference convert ss channels waiting nframes 0, nframes * channels * ss)

-- The callback against the reference, for samples of 1 to 8 bytes and a period of less than 2 ^ 32
-- samples. If fewer bytes wait than the period needs, nothing is stored or taken. Otherwise each sample
-- is stored where it belongs, wherever the border of the two segments lies, and exactly the bytes of the
-- period are taken.
pub process_lem :
    {F Ring : Type 0} (ringbuffer : Ringbuffer Ring) (laws : RingbufferLaws ringbuffer)
    (convert : List ℕ → F) (ss channels nframes : ℕ) (ring : Ring)
    → 0 < ss
    → ss ≤ 8
    → nframes * channels < 2 ^ 32
    → let (stores, taken) = expected convert ss channels nframes (laws.contents ring) in
      (ring' : Ring) × (process ringbuffer convert ss channels nframes ring ≡ some (stores, ring'))
      × (laws.contents ring' ≡ drop taken (laws.contents ring))
unfolding process
process_lem {Ring = Ring} ringbuffer laws convert ss channels nframes ring some_byte small narrow =
    elim (Bool-cases (ltb (length (laws.contents ring)) (nframes * channels * ss))) [
      | inl few ↦ rw few (ring, short (ground (arith, few)), refl)
      | inr many ↦ rw many (enough (ground (arith, many)))
    ]
  where
    first : List ℕ
    first = (ringbuffer.get_read_vector ring).0

    second : List ℕ
    second = (ringbuffer.get_read_vector ring).1

    all : length first + length second ≡ length (laws.contents ring)
    all = omega (arith, length-append first second, ap (λ l. length l) (laws.contents-vector ring))

    wide : nframes * channels * ss < 2 ^ 64
    wide = grind (arith, small, narrow)

    needed : nframes * channels % 2 ^ 32 * ss % 2 ^ 64 ≡ nframes * channels * ss
    needed =
        let inner : nframes * channels % 2 ^ 32 ≡ nframes * channels = omega arith in
        rw inner (omega (arith, wide))

    short :
        length (laws.contents ring) < nframes * channels * ss
        → process ringbuffer convert ss channels nframes ring ≡ some ([], ring)
    short few = ground (arith, needed, all)

    enough :
        nframes * channels * ss ≤ length (laws.contents ring)
        → (ring' : Ring) × (process ringbuffer convert ss channels nframes ring
            ≡ some (reference convert ss channels (laws.contents ring) nframes 0, ring'))
          × (laws.contents ring' ≡ drop (nframes * channels * ss) (laws.contents ring))
    enough many =
        let (c, loops, at) =
          frame_loop_lem convert ss channels first second some_byte small nframes 0 {c = start}
            (omega (arith, all)) (IsAt-cast (omega arith) (in_first (omega arith))) in
        let taken : c.len ≡ nframes * channels * ss = IsAt-len at ∙ omega arith in
        let runs : ltb (length first + length second) (nframes * channels % 2 ^ 32 * ss % 2 ^ 64)
            ≡ false =
          ground (arith, needed, all) in
        (
          ringbuffer.read_advance ring c.len,
          rw (runs, loops, laws.contents-vector ring),
          rw taken (laws.contents-advance ring (nframes * channels * ss) many),
        )
