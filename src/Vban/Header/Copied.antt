-- ===== src/Vban/Header/Copied.antt =====
-- The header of a packet that was copied to the front of another buffer.
use vban.Prelude.{ℕ, ◌≤◌, ◌≡◌, arith, List, length}
use vban.Prelude.Memory.{slice, splice}
use vban.Prelude.Memory.Slices.{slice-copied, get_or-copied}
use vban.Vban.Header.{read_header}

pub read_header-copied :
    (m dest : List ℕ) (k : ℕ)
    → k ≤ length m
    → k ≤ length dest
    → 28 ≤ k
    → read_header (splice dest 0 (slice m 0 k)) ≡ read_header m
unfolding read_header
read_header-copied m dest k fits room h =
    let byte = get_or-copied m dest k in
    rw (
      byte 0 fits room (omega arith),
      byte 1 fits room (omega arith),
      byte 2 fits room (omega arith),
      byte 3 fits room (omega arith),
      byte 4 fits room (omega arith),
      byte 5 fits room (omega arith),
      byte 6 fits room (omega arith),
      byte 7 fits room (omega arith),
      byte 24 fits room (omega arith),
      byte 25 fits room (omega arith),
      byte 26 fits room (omega arith),
      byte 27 fits room (omega arith),
      slice-copied m dest k 8 16 fits (omega arith),
    )
