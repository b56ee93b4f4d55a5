-- ===== src/Audio/Channels/Overflow.antt =====
-- When `audio_map_channels` runs past the end of a block.
use native.Mathlib.Decide.{ℕ_discrete}
use vban.Prelude.{
  ℕ, zero, suc, ◌+◌, ◌*◌, ◌/◌, ◌≤◌, ◌<◌, ◌≡◌, ◌∙◌, arith, >>=-some, List, none, some, inl, inr,
  length, get_elem?, Option-cases,
}
use vban.Prelude.Memory.{
  read_block, write_block, clear_block, read_block-some, write_block-some, clear_block-some,
}
use vban.Audio.Channels.{MapConfig, copy_frames, copy_channel, copy_channels, map_channels}
use vban.Audio.Channels.Cells.{cell}

module _ (ss n m : ℕ) (orig : List ℕ) (source chan : ℕ) where
  copy_frames_overflow :
      (left frame f : ℕ) (dest : List ℕ)
      → frame ≤ f
      → f < frame + left
      → length dest < cell ss m f chan + ss
      → copy_frames ss n m source chan orig left frame dest ≡ none
  unfolding copy_frames
  copy_frames_overflow zero frame f dest p q over = absurd (omega arith)
  copy_frames_overflow (suc left) frame f dest p q over =
      elim (Option-cases (read_block orig (cell ss n frame source) ss)) [
        | inl faults ↦ rw faults
        | inr (sample, reads) ↦
            elim (Option-cases (write_block dest (cell ss m frame chan) sample)) [
              | inl faults ↦ rw (reads, faults)
              | inr (next, writes) ↦
                  rw (reads, writes)
                    (elim (ℕ_discrete frame f) [
                      | yes here ↦
                          let over' : length dest < cell ss m frame chan + ss = rw here over in
                          absurd (
                            omega (
                              arith,
                              over',
                              read_block-some orig (cell ss n frame source) ss reads,
                              write_block-some dest (cell ss m frame chan) sample writes,
                            ))
                      | no ne ↦
                          copy_frames_overflow left (frame + 1) f next (omega arith) (omega arith) (
                            omega (
                              arith,
                              over,
                              write_block-some dest (cell ss m frame chan) sample writes,
                            ))
                    ])
            ]
      ]

  copy_frames-length :
      (left frame : ℕ) (dest : List ℕ) {out : List ℕ}
      → copy_frames ss n m source chan orig left frame dest ≡ some out
      → length out ≡ length dest
  unfolding copy_frames
  copy_frames-length zero frame dest e = cc
  copy_frames-length (suc left) frame dest e =
      let (sample, reads, e') = >>=-some (read_block orig (cell ss n frame source) ss) _ e in
      let (next, writes, e'') = >>=-some (write_block dest (cell ss m frame chan) sample) _ e' in
      copy_frames-length left (frame + 1) next e''
      ∙ (write_block-some dest (cell ss m frame chan) sample writes).1

module _ (ss n size : ℕ) (map : MapConfig) (orig : List ℕ) where
  -- `size / (ss * n)` frames are copied.
  copy_channel-length :
      (chan source : ℕ) (dest : List ℕ) {out : List ℕ}
      → copy_channel ss n map.nb_channels size chan source orig dest ≡ some out
      → length out ≡ length dest
  unfolding copy_channel
  copy_channel-length chan source dest {out} e = ground (
    arith,
    copy_frames-length ss n map.nb_channels orig source chan (size / (ss * n)) 0 dest {out = out},
  )

  copy_channel_overflow :
      (chan source f : ℕ) (dest : List ℕ)
      → source < n
      → f < size / (ss * n)
      → length dest < cell ss map.nb_channels f chan + ss
      → copy_channel ss n map.nb_channels size chan source orig dest ≡ none
  unfolding copy_channel
  copy_channel_overflow chan source f dest present fr over = ground (
    arith,
    copy_frames_overflow ss n map.nb_channels orig source chan (size / (ss * n)) 0 f dest
        (omega arith) (omega arith) over,
  )

  refuted :
      (chan s : ℕ) (dest : List ℕ) {c source f : ℕ} {next : List ℕ}
      → get_elem? map.channels chan ≡ some s
      → copy_channel ss n map.nb_channels size chan s orig dest ≡ some next
      → chan ≡ c
      → get_elem? map.channels c ≡ some source
      → source < n
      → f < size / (ss * n)
      → length dest < cell ss map.nb_channels f c + ss
      → ⊥
  refuted chan s dest {c} {source} {f} at_chan copies here at_c present fr over =
      let same : source ≡ s = cc in
      let over' : length dest < cell ss map.nb_channels f chan + ss = rw here over in
      let faults = copy_channel_overflow chan s f dest (rw (← same) present) fr over' in cc

  copy_channels_overflow :
      (left chan c source f : ℕ) (dest : List ℕ)
      → chan ≤ c
      → c < chan + left
      → get_elem? map.channels c ≡ some source
      → source < n
      → f < size / (ss * n)
      → length dest < cell ss map.nb_channels f c + ss
      → copy_channels ss n size map orig left chan dest ≡ none
  unfolding copy_channels
  copy_channels_overflow zero chan c source f dest p q at_c present fr over = absurd (omega arith)
  copy_channels_overflow (suc left) chan c source f dest p q at_c present fr over =
      elim (Option-cases (get_elem? map.channels chan)) [
        | inl faults ↦ rw faults
        | inr (s, at_chan) ↦
            elim (Option-cases (copy_channel ss n map.nb_channels size chan s orig dest)) [
              | inl faults ↦ rw (at_chan, faults)
              | inr (next, copies) ↦
                  rw (at_chan, copies)
                    (elim (ℕ_discrete chan c) [
                      | yes here ↦
                          absurd (refuted chan s dest at_chan copies here at_c present fr over)
                      | no ne ↦
                          copy_channels_overflow left (chan + 1) c source f next (omega arith)
                            (omega arith) at_c present fr
                            (omega (arith, over, copy_channel-length chan s dest copies))
                    ])
            ]
      ]

  -- A frame whose sample does not fit the output block makes `audio_map_channels` write behind that
  -- block, if the sample comes from a channel that the stream has.
  pub map_channels_overflow :
      (c source f : ℕ) (dest : List ℕ)
      → c < map.nb_channels
      → get_elem? map.channels c ≡ some source
      → source < n
      → f < size / (ss * n)
      → length dest < cell ss map.nb_channels f c + ss
      → map_channels ss n size map orig dest ≡ none
  unfolding map_channels
  map_channels_overflow c source f dest in_map at_c present fr over =
      elim (Option-cases (clear_block dest size)) [
        | inl faults ↦ rw faults
        | inr (cleared, clears) ↦ rw clears (
            copy_channels_overflow map.nb_channels 0 c source f cleared (omega arith) (omega arith)
              at_c present fr (omega (arith, over, clear_block-some dest size clears)))
      ]

  copy_channels-length :
      (left chan : ℕ) (dest : List ℕ) {out : List ℕ}
      → copy_channels ss n size map orig left chan dest ≡ some out
      → length out ≡ length dest
  unfolding copy_channels
  copy_channels-length zero chan dest e = cc
  copy_channels-length (suc left) chan dest e =
      let (source, at_chan, e') = >>=-some (get_elem? map.channels chan) _ e in
      let (next, copies, e'') =
        >>=-some (copy_channel ss n map.nb_channels size chan source orig dest) _ e' in
      copy_channels-length left (chan + 1) next e'' ∙ copy_channel-length chan source dest copies

  -- The output block keeps its length.
  pub map_channels-length :
      (dest : List ℕ) {out : List ℕ}
      → map_channels ss n size map orig dest ≡ some out
      → length out ≡ length dest
  unfolding map_channels
  map_channels-length dest e =
      let (cleared, clears, e') = >>=-some (clear_block dest size) _ e in
      copy_channels-length map.nb_channels 0 cleared e' ∙ (clear_block-some dest size clears).1
