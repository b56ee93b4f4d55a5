-- ===== src/Audio/Channels/Copy.antt =====
-- The inner loop: which bytes the copy of one channel writes.
use native.Mathlib.Decide.{dec_lt, ℕ_discrete}
use native.Mathlib.Nat.{le_trans}
use vban.Prelude.{
  ℕ, zero, suc, ◌+◌, ◌-◌, ◌*◌, ◌≤◌, ◌<◌, ◌≡◌, ◌≢◌, ◌⊎◌, inl, inr, refl, ◌∙◌, arith, List, some,
  length, get_or,
}
use vban.Prelude.Memory.{
  slice, splice, length-slice, get_or-slice, length-splice, get_or-splice_in, get_or-splice_out,
  read_block_in, write_block_in,
}
use vban.Audio.Channels.{copy_frames}
use vban.Audio.Channels.Cells.{cell, cell_unique, cell_inside}

module _ (ss n m : ℕ) (orig : List ℕ) (source chan : ℕ) where
  -- The frames from `frame` up to `end` of channel `chan` come from channel `source` of `orig`; all
  -- other bytes are those of `dest`.
  pub record IsCopied (frame end : ℕ) (dest out : List ℕ) : Type 0 where
    pub same_length : length out ≡ length dest
    pub inside :
        (f b : ℕ)
        → frame ≤ f
        → f < end
        → b < ss
        → get_or out (cell ss m f chan + b) 0 ≡ get_or orig (cell ss n f source + b) 0
    pub outside :
        (i : ℕ)
        → ((f b : ℕ) → frame ≤ f → f < end → b < ss → i ≢ cell ss m f chan + b)
        → get_or out i 0 ≡ get_or dest i 0

  module _ (dest : List ℕ) (frame end : ℕ) (in_map : chan < m)
      (reads : cell ss n frame source + ss ≤ length orig)
      (writes : cell ss m frame chan + ss ≤ length dest) where
    abbrev sample : List ℕ
    sample = slice orig (cell ss n frame source) ss

    abbrev written : List ℕ
    written = splice dest (cell ss m frame chan) sample

    length-sample : length sample ≡ ss
    length-sample = length-slice orig (cell ss n frame source) ss reads

    sample_fits : cell ss m frame chan + length sample ≤ length dest
    sample_fits = rw length-sample writes

    written_inside :
        (b : ℕ)
        → b < ss
        → get_or written (cell ss m frame chan + b) 0 ≡ get_or orig (cell ss n frame source + b) 0
    written_inside b r =
        get_or-splice_in dest (cell ss m frame chan) sample b sample_fits (rw length-sample r)
        ∙ get_or-slice orig (cell ss n frame source) ss b r

    written_outside :
        (i : ℕ)
        → ((b : ℕ) → b < ss → i ≢ cell ss m frame chan + b)
        → get_or written i 0 ≡ get_or dest i 0
    written_outside i apart =
        get_or-splice_out dest (cell ss m frame chan) sample i sample_fits side
      where
        o : ℕ
        o = cell ss m frame chan

        side : (i < o) ⊎ (o + length sample ≤ i)
        side = elim (dec_lt i o) [
          | yes before ↦ inl before
          | no h ↦ elim (dec_lt i (o + ss)) [
            | yes here ↦ absurd (apart (i - o) (omega arith) (omega arith))
            | no h' ↦ inr (rw length-sample (omega arith))
          ]
        ]

    -- One round of the loop, in front of the rounds that follow.
    IsCopied-step :
        {out : List ℕ}
        → frame < end
        → IsCopied (frame + 1) end written out
        → IsCopied frame end dest out
    IsCopied-step {out} lt rest = record {
      same_length = rest.same_length ∙ length-splice dest (cell ss m frame chan) sample sample_fits;
      inside = λ f b p q r. elim (ℕ_discrete frame f) [
        | yes e ↦
            rw (← e)
              (rest.outside (cell ss m frame chan + b) (later_apart b r) ∙ written_inside b r)
        | no ne ↦ rest.inside f b (omega arith) q r
      ];
      outside = λ i apart.
          rest.outside i (λ f b p q r. apart f b (omega arith) q r)
          ∙ written_outside i (λ b r. apart frame b (omega arith) lt r);
    }
      where
        later_apart :
            (b : ℕ)
            → b < ss
            → (f b' : ℕ) → frame + 1 ≤ f
            → f < end
            → b' < ss
            → cell ss m frame chan + b ≢ cell ss m f chan + b'
        later_apart b r f b' p q r' e =
            let same = cell_unique ss m frame chan b f chan b' r r' in_map in_map e in
            absurd (omega (arith, same.0))

  module _ (frames : ℕ) (in_stream : source < n) (in_map : chan < m)
      (reads : frames * (ss * n) ≤ length orig) where
    -- The loop does not fault inside the two blocks, and copies the channel.
    pub copy_frames-IsCopied :
        (left frame : ℕ) (dest : List ℕ)
        → frame + left ≡ frames
        → frames * (ss * m) ≤ length dest
        → (out : List ℕ) × (copy_frames ss n m source chan orig left frame dest ≡ some out)
          × IsCopied frame frames dest out
    unfolding copy_frames
    copy_frames-IsCopied zero frame dest e writes = (
      dest,
      refl,
      record {
        same_length = refl;
        inside = λ f b p q r. absurd (omega arith);
        outside = λ i apart. refl;
      },
    )
    copy_frames-IsCopied (suc left) frame dest e writes =
        let read_here =
          le_trans (cell_inside ss n frame source frames (omega arith) in_stream) reads in
        let write_here =
          le_trans (cell_inside ss m frame chan frames (omega arith) in_map) writes in
        let next = written dest frame frames in_map read_here write_here in
        let fits = sample_fits dest frame frames in_map read_here write_here in
        let rest =
          copy_frames-IsCopied left (frame + 1) next (omega arith)
            (rw (length-splice dest (cell ss m frame chan) _ fits) writes) in
        (
          rest.0,
          rw
              (
                read_block_in orig (cell ss n frame source) ss read_here,
                write_block_in dest (cell ss m frame chan) _ fits,
              )
              rest.1,
          IsCopied-step dest frame frames in_map read_here write_here (omega arith) rest.2,
        )
