-- ===== src/Audio/Channels/Spec.antt =====
-- The outer loop against its specification: where the bytes of the output come from.
use native.Mathlib.Decide.{dec_lt, ℕ_discrete}
use vban.Prelude.{
  ℕ, zero, suc, ◌+◌, ◌-◌, ◌*◌, ◌/◌, ◌≤◌, ◌<◌, ◌≡◌, ◌≢◌, refl, sym, ◌∙◌, arith, List, some, length,
  get_or, get_elem?, get_elem?-some, replicate, get_or-replicate, length-replicate, ltb, ltb_iff,
  if◌then◌else◌, false,
}
use vban.Prelude.Memory.{splice, length-splice, get_or-splice, clear_block_in}
use vban.Audio.Channels.{MapConfig, copy_channel, copy_channels, map_channels}
use vban.Audio.Channels.Cells.{cell, cell_unique, cell_inside}
use vban.Audio.Channels.Copy.{copy_frames-IsCopied}

ltb-false : (a b : ℕ) → ¬ (a < b) → ltb a b ≡ false
ltb-false a b h = ground arith

module _ (ss n size : ℕ) (map : MapConfig) (orig : List ℕ) where
  abbrev frames : ℕ
  frames = size / (ss * n)

  abbrev m : ℕ
  m = map.nb_channels

  -- A byte that the columns from `chan` up to `end` write.
  abbrev Apart : (chan end i : ℕ) → Type 0
  Apart chan end i =
      (c f b source : ℕ)
      → chan ≤ c
      → c < end
      → get_elem? map.channels c ≡ some source
      → source < n
      → f < frames
      → b < ss
      → i ≢ cell ss m f c + b

  record IsMapped (chan end : ℕ) (dest out : List ℕ) : Type 0 where
    same_length : length out ≡ length dest
    inside :
        (c f b source : ℕ)
        → chan ≤ c
        → c < end
        → get_elem? map.channels c ≡ some source
        → source < n
        → f < frames
        → b < ss
        → get_or out (cell ss m f c + b) 0 ≡ get_or orig (cell ss n f source + b) 0
    outside : (i : ℕ) → Apart chan end i → get_or out i 0 ≡ get_or dest i 0

  module _ (some_byte : 0 < ss) (reads : size ≤ length orig) (array : m ≤ length map.channels) where
    frames_read : 0 < n → frames * (ss * n) ≤ length orig
    frames_read h = grind (arith, some_byte)

    same_source :
        {c chan s source : ℕ}
        → get_elem? map.channels chan ≡ some source
        → get_elem? map.channels c ≡ some s
        → c ≡ chan
        → s ≡ source
    same_source e e' h = cc

    copy_channel_lem :
        (chan source : ℕ) (dest : List ℕ)
        → chan < m
        → get_elem? map.channels chan ≡ some source
        → frames * (ss * m) ≤ length dest
        → (out : List ℕ) × (copy_channel ss n m size chan source orig dest ≡ some out)
          × IsMapped chan (chan + 1) dest out
    unfolding copy_channel
    copy_channel_lem chan source dest in_map at_chan writes = elim (dec_lt source n) [
      | yes present ↦
          let nonzero : 0 < ss * n = grind (arith, some_byte, present) in
          let done =
            copy_frames-IsCopied ss n m orig source chan frames present in_map
              (frames_read (omega arith)) frames 0 dest (omega arith) writes in
          (
            done.0,
            ground (arith, done.1, nonzero, present),
            record {
              same_length = done.2.same_length;
              inside = λ c f b s p q at_c in_stream fr bs.
                  let here : c ≡ chan = omega arith in
                  let same : s ≡ source = same_source at_chan at_c here in
                  rw (here, same) (done.2.inside f b (omega arith) fr bs);
              outside = λ i apart. done.2.outside i (λ f b p q r.
                  apart chan f b source (omega arith) (omega arith) at_chan present q r);
            },
          )
      | no missing ↦ (
        dest,
        ground arith,
        record {
          same_length = refl;
          inside = λ c f b s p q at_c in_stream fr bs.
              let same : s ≡ source = same_source at_chan at_c (omega arith) in
              absurd (missing (rw (← same) in_stream));
          outside = λ i apart. refl;
        },
      )
    ]

    -- One column, in front of the columns that follow.
    IsMapped-step :
        {chan end : ℕ} {dest mid out : List ℕ}
        → chan < end
        → end ≤ m
        → IsMapped chan (chan + 1) dest mid
        → IsMapped (chan + 1) end mid out
        → IsMapped chan end dest out
    IsMapped-step {chan} {end} {dest} {mid} {out} lt le first rest = record {
      same_length = rest.same_length ∙ first.same_length;
      inside = λ c f b s p q at_c in_stream fr bs. elim (ℕ_discrete c chan) [
        | yes here ↦
            rest.outside (cell ss m f c + b) (λ c' f' b' s' p' q' _ _ _ bs' e.
              let same = cell_unique ss m f c b f' c' b' bs bs' (omega arith) (omega arith) e in
              absurd (omega (arith, same.1)))
            ∙ first.inside c f b s (omega arith) (omega arith) at_c in_stream fr bs
        | no ne ↦ rest.inside c f b s (omega arith) q at_c in_stream fr bs
      ];
      outside = λ i apart.
          rest.outside i (λ c f b s p q. apart c f b s (omega arith) q)
          ∙ first.outside i (λ c f b s p q. apart c f b s p (omega arith));
    }

    copy_channels-IsMapped :
        (left chan : ℕ) (dest : List ℕ)
        → chan + left ≡ m
        → frames * (ss * m) ≤ length dest
        → (out : List ℕ) × (copy_channels ss n size map orig left chan dest ≡ some out)
          × IsMapped chan m dest out
    unfolding copy_channels
    copy_channels-IsMapped zero chan dest e writes = (
      dest,
      refl,
      record {
        same_length = refl;
        inside = λ c f b s p q. absurd (omega arith);
        outside = λ i apart. refl;
      },
    )
    copy_channels-IsMapped (suc left) chan dest e writes =
        let (source, at_chan) = get_elem?-some map.channels chan (omega arith) in
        let first = copy_channel_lem chan source dest (omega arith) at_chan writes in
        let rest =
          copy_channels-IsMapped left (chan + 1) first.0 (omega arith)
            (rw first.2.same_length writes) in
        (
          rest.0,
          rw (at_chan, first.1) rest.1,
          IsMapped-step (omega arith) (omega arith) first.2 rest.2,
        )

  -- The byte of a block whose first `size` bytes were cleared.
  abbrev pub cleared_byte : List ℕ → ℕ → ℕ
  cleared_byte dest i = if ltb i size then 0 else get_or dest i 0

  cleared_lem :
      (dest : List ℕ) (i : ℕ)
      → size ≤ length dest
      → get_or (splice dest 0 (replicate size 0)) i 0 ≡ cleared_byte dest i
  cleared_lem dest i h =
      rw
        (
          get_or-splice dest 0 (replicate size 0) i (rw length-replicate (omega arith)),
          length-replicate,
        )
        (ground (arith, get_or-replicate {A = ℕ} size (i - 0) 0))

  -- Inside the blocks `audio_map_channels` does not fault, and each byte of the output is known. In
  -- frame `f`, column `c` holds the bytes of the stream's channel that the map names, where the stream
  -- has it. Every other byte is 0 below `size`, and above it what the output block held before.
  pub map_channels_lem :
      (dest : List ℕ)
      → 0 < ss
      → size ≤ length orig
      → m ≤ length map.channels
      → size ≤ length dest
      → frames * (ss * m) ≤ length dest
      → (out : List ℕ) × (map_channels ss n size map orig dest ≡ some out)
        × (length out ≡ length dest)
        × ((c f b source : ℕ)
            → c < m
            → get_elem? map.channels c ≡ some source
            → f < frames
            → b < ss
            → get_or out (cell ss m f c + b) 0 ≡ (
                if ltb source n
                then get_or orig (cell ss n f source + b) 0
                else cleared_byte dest (cell ss m f c + b)))
        × ((i : ℕ) → frames * (ss * m) ≤ i → get_or out i 0 ≡ cleared_byte dest i)
  unfolding map_channels
  map_channels_lem dest some_byte reads array clear writes =
      let cleared = splice dest 0 (replicate size 0) in
      let same : length cleared ≡ length dest =
        length-splice dest 0 (replicate size 0) (rw length-replicate (omega arith)) in
      let done =
        copy_channels-IsMapped some_byte reads array m 0 cleared (omega arith) (rw same writes) in
      (
        done.0,
        rw (clear_block_in dest size clear) done.1,
        done.2.same_length ∙ same,
        λ c f b source in_map at_c fr bs. elim (dec_lt source n) [
          | yes present ↦
              rw ((ltb_iff source n).1 present)
                (done.2.inside c f b source (omega arith) in_map at_c present fr bs)
          | no missing ↦ rw (ltb-false source n missing) (
              done.2.outside (cell ss m f c + b) (λ c' f' b' s' _ q' at_c' present' _ bs' e.
                let same_cell = cell_unique ss m f c b f' c' b' bs bs' in_map q' e in
                let same_channel : s' ≡ source =
                  same_source some_byte reads array at_c at_c' (sym (same_cell.1)) in
                missing (rw (← same_channel) present'))
              ∙ cleared_lem dest (cell ss m f c + b) clear)
        ],
        λ i behind.
            done.2.outside i (λ c f b s _ q _ _ fr bs e.
              absurd (omega (arith, cell_inside ss m f c frames fr q, e)))
            ∙ cleared_lem dest i clear,
      )
