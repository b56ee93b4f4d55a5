-- ===== src/Devices/Jack/Process/Reading.antt =====
-- One round of the callback's loops: which bytes it reads.
use vban.Prelude.{
  ℕ, ◌+◌, ◌-◌, ◌≤◌, ◌<◌, ◌≡◌, arith, List, ◌++◌, some, true, false, inl, inr, Bool-cases, length,
  length-drop, drop, ltb, ltb_iff, ◌==◌,
}
use vban.Prelude.Memory.{slice, read_block_in}
use vban.Prelude.Memory.Slices.{slice-append, slice-append_behind, slice-append_across}
use vban.Devices.Jack.Process.{Cursor, read_here, read_parts, read_sample}

module _ (ss : ℕ) (first second : List ℕ) where
  -- The cursor stands at byte `len` of the two segments together.
  pub data IsAt : ℕ → Cursor → Type 0 where
    in_first :
        {len : ℕ}
        → len ≤ length first
        → IsAt len (record { second = false; offset = len; len = len; moved = false })
    in_second :
        {offset len : ℕ}
        → length first + offset ≡ len
        → IsAt len (record { second = true; offset = offset; len = len; moved = true })

  abbrev Reads : ℕ → Cursor → Type 0
  Reads len c =
      (c' : Cursor) × (read_sample ss first second c ≡ some (slice (first ++ second) len ss, c'))
      × IsAt (len + ss) c'

  from_second :
      (offset len : ℕ)
      → length first + offset ≡ len
      → len + ss ≤ length first + length second
      → read_here ss first second
          (record { second = true; offset = offset; len = len; moved = true })
        ≡ some (
          slice (first ++ second) len ss,
          record { second = true; offset = offset + ss; len = len + ss; moved = true },
        )
  unfolding read_here
  from_second offset len e fits =
      let at : len - length first ≡ offset = omega arith in
      rw (
        read_block_in second offset ss (omega arith),
        slice-append_behind first second len ss (omega arith),
        at,
      )

  from_first :
      (len : ℕ)
      → len + ss ≤ length first
      → read_here ss first second
          (record { second = false; offset = len; len = len; moved = false })
        ≡ some (
          slice (first ++ second) len ss,
          record { second = false; offset = len + ss; len = len + ss; moved = false },
        )
  unfolding read_here
  from_first len fits = rw (read_block_in first len ss fits, slice-append first second len ss fits)

  across :
      (len : ℕ)
      → ss ≤ 8
      → len ≤ length first
      → length first < len + ss
      → len + ss ≤ length first + length second
      → read_parts ss first second
          (record { second = false; offset = len; len = len; moved = false })
        ≡ some (
          slice (first ++ second) len ss,
          record {
            second = true;
            offset = ss - length (drop len first);
            len = len + ss;
            moved = true;
          },
        )
  unfolding read_parts
  across len small low cut fits =
      let head = length-drop len first in
      let short : ltb 8 (length (drop len first)) ≡ false = ground (arith, head) in
      rw (
        short,
        read_block_in second 0 (ss - length (drop len first)) (omega (arith, head)),
        slice-append_across first second len ss low (omega arith),
      )

  -- Where the bytes last, a round reads the sample at the cursor, and the cursor is behind it then.
  pub read_sample_lem :
      {len : ℕ} {c : Cursor}
      → 0 < ss
      → ss ≤ 8
      → len + ss ≤ length first + length second
      → IsAt len c
      → Reads len c
  unfolding read_sample
  read_sample_lem some_byte small fits (in_second {offset} {len} e) = (
    record { second = true; offset = offset + ss; len = len + ss; moved = true },
    from_second offset len e fits,
    in_second (omega arith),
  )
  read_sample_lem some_byte small fits (in_first {len} low) =
      elim (Bool-cases (ltb (length first) (len + ss))) [
        | inl cut ↦ (
          record {
            second = true;
            offset = ss - length (drop len first);
            len = len + ss;
            moved = true;
          },
          rw cut (across len small low ((ltb_iff (length first) (len + ss)).0 cut) fits),
          in_second
              (omega (arith, length-drop len first, (ltb_iff (length first) (len + ss)).0 cut)),
        )
        | inr whole ↦
            let inside : len + ss ≤ length first = ground (arith, whole) in
            let before : (len == length first) ≡ false = ground (arith, some_byte, inside) in
            (
              record { second = false; offset = len + ss; len = len + ss; moved = false },
              rw (whole, before) (from_first len inside),
              in_first inside,
            )
      ]
