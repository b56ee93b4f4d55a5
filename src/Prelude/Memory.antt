-- ===== src/Prelude/Memory.antt =====
-- Blocks of memory as lists of bytes: `memcpy` and `memset` on a part of a block, which fault when
-- the part does not lie inside it.
pub mod Slices
use vban.Prelude.Tests.{ltb, leb, if◌then◌else◌}
use vban.Prelude.Lists.{
  length, get_or, take, drop, replicate, length-append, length-take, length-drop, get_or-take,
  get_or-drop, length-replicate,
}
use Prim.Native.Nat.{ℕ, zero, suc, ◌+◌, ◌-◌, ◌≤◌, ◌<◌}
use mathlib.Core.Path.{◌≡◌, refl, ap}
use mathlib.Core.Bool.{true, false}
use mathlib.Core.Logic.{◌⊎◌}
use mathlib.Core.Option.{Option, none, some}
use mathlib.Core.List.{List, [], ◌∷◌, ◌++◌}
use native.Mathlib.Omega.{arith}

-- Every cell holds a byte.
abbrev pub IsBytes : List ℕ → Type 0
IsBytes m = (i : ℕ) → get_or m i 0 < 256

-- The `n` bytes from offset `o` on.
abbrev pub slice : List ℕ → ℕ → ℕ → List ℕ
slice m o n = take n (drop o m)

unfoldable pub read_block : List ℕ → ℕ → ℕ → Option (List ℕ)
read_block m o n = if leb (o + n) (length m) then some (slice m o n) else none

-- The block with `bytes` in place of what stood at offset `o`.
unfoldable pub splice : List ℕ → ℕ → List ℕ → List ℕ
splice m o bytes = take o m ++ (bytes ++ drop (o + length bytes) m)

unfoldable pub write_block : List ℕ → ℕ → List ℕ → Option (List ℕ)
write_block m o bytes = if leb (o + length bytes) (length m) then some (splice m o bytes) else none

-- `memset(m, 0, n)`
pub clear_block : List ℕ → ℕ → Option (List ℕ)
clear_block m n = write_block m 0 (replicate n 0)

pub length-slice : (m : List ℕ) (o n : ℕ) → o + n ≤ length m → length (slice m o n) ≡ n
length-slice m o n h = omega (arith, length-take n (drop o m), length-drop o m)

pub get_or-slice : (m : List ℕ) (o n i : ℕ) → i < n → get_or (slice m o n) i 0 ≡ get_or m (o + i) 0
get_or-slice m o n i h = rw (get_or-take n i (drop o m) 0 h) (get_or-drop o i m 0)

pub get_or-append :
    (xs ys : List ℕ) (i : ℕ)
    → get_or (xs ++ ys) i 0
      ≡ (if ltb i (length xs) then get_or xs i 0 else get_or ys (i - length xs) 0)
get_or-append [] ys zero = refl
get_or-append [] ys (suc i) = ground arith
get_or-append (x ∷ xs) ys zero = ground arith
get_or-append (x ∷ xs) ys (suc i) = ground (arith, get_or-append xs ys i)

pub length-splice :
    (m : List ℕ) (o : ℕ) (bytes : List ℕ)
    → o + length bytes ≤ length m
    → length (splice m o bytes) ≡ length m
unfolding splice
length-splice m o bytes h = omega (
  arith,
  length-append (take o m) (bytes ++ drop (o + length bytes) m),
  length-append bytes (drop (o + length bytes) m),
  length-take o m,
  length-drop (o + length bytes) m,
)

-- Each byte of a block that was written in part.
pub get_or-splice :
    (m : List ℕ) (o : ℕ) (bytes : List ℕ) (i : ℕ)
    → o + length bytes ≤ length m
    → get_or (splice m o bytes) i 0 ≡ (
        if ltb i o
        then get_or m i 0
        else if ltb i (o + length bytes)
        then get_or bytes (i - o) 0
        else get_or m i 0)
unfolding splice
get_or-splice m o bytes i h = ground (
  arith,
  get_or-append (take o m) (bytes ++ drop (o + length bytes) m) i,
  get_or-append bytes (drop (o + length bytes) m) (i - o),
  length-take o m,
  get_or-take o i m 0,
  get_or-drop (o + length bytes) (i - (o + length bytes)) m 0,
)

pub get_or-splice_in :
    (m : List ℕ) (o : ℕ) (bytes : List ℕ) (b : ℕ)
    → o + length bytes ≤ length m
    → b < length bytes
    → get_or (splice m o bytes) (o + b) 0 ≡ get_or bytes b 0
get_or-splice_in m o bytes b h lt =
    let e : o + b - o ≡ b = omega arith in
    ground (arith, get_or-splice m o bytes (o + b) h, ap (λ i. get_or bytes i 0) e)

pub get_or-splice_out :
    (m : List ℕ) (o : ℕ) (bytes : List ℕ) (i : ℕ)
    → o + length bytes ≤ length m
    → (i < o) ⊎ (o + length bytes ≤ i)
    → get_or (splice m o bytes) i 0 ≡ get_or m i 0
get_or-splice_out m o bytes i h side = ground (arith, get_or-splice m o bytes i h)

pub take-append : (xs ys : List ℕ) (n : ℕ) → length xs ≡ n → take n (xs ++ ys) ≡ xs
take-append [] ys zero h = refl
take-append [] ys (suc n) h = absurd (omega arith)
take-append (x ∷ xs) ys zero h = absurd (omega arith)
take-append (x ∷ xs) ys (suc n) h = ap (λ l. x ∷ l) (take-append xs ys n (omega arith))

pub drop-append : (xs ys : List ℕ) (n : ℕ) → length xs ≡ n → drop n (xs ++ ys) ≡ ys
drop-append [] ys zero h = refl
drop-append [] ys (suc n) h = absurd (omega arith)
drop-append (x ∷ xs) ys zero h = absurd (omega arith)
drop-append (x ∷ xs) ys (suc n) h = drop-append xs ys n (omega arith)

-- Bytes in a block that is put together.
pub append-IsBytes : (xs ys : List ℕ) → IsBytes xs → IsBytes ys → IsBytes (xs ++ ys)
append-IsBytes xs ys bx by i = ground (arith, get_or-append xs ys i, bx i, by (i - length xs))

pub drop-IsBytes : (n : ℕ) (m : List ℕ) → IsBytes m → IsBytes (drop n m)
drop-IsBytes n m b i = rw get_or-drop (b (n + i))

pub take-IsBytes : (n : ℕ) (m : List ℕ) → IsBytes m → IsBytes (take n m)
take-IsBytes zero m b i = omega arith
take-IsBytes (suc n) [] b i = omega arith
take-IsBytes (suc n) (x ∷ m) b zero = b zero
take-IsBytes (suc n) (x ∷ m) b (suc i) = take-IsBytes n m (λ j. b (suc j)) i

pub splice-IsBytes :
    (m : List ℕ) (o : ℕ) (bytes : List ℕ)
    → o + length bytes ≤ length m
    → IsBytes m
    → IsBytes bytes
    → IsBytes (splice m o bytes)
splice-IsBytes m o bytes fits bm bb i =
    ground (arith, get_or-splice m o bytes i fits, bm i, bb (i - o))

-- Inside the block a copy does not fault.
pub read_block_in :
    (m : List ℕ) (o n : ℕ) → o + n ≤ length m → read_block m o n ≡ some (slice m o n)
unfolding read_block
read_block_in m o n h = ground arith

pub write_block_in :
    (m : List ℕ) (o : ℕ) (bytes : List ℕ)
    → o + length bytes ≤ length m
    → write_block m o bytes ≡ some (splice m o bytes)
unfolding write_block
write_block_in m o bytes h = ground arith

pub write_block_out :
    (m : List ℕ) (o : ℕ) (bytes : List ℕ)
    → length m < o + length bytes
    → write_block m o bytes ≡ none
unfolding write_block
write_block_out m o bytes h = ground arith

pub read_block_out : (m : List ℕ) (o n : ℕ) → length m < o + n → read_block m o n ≡ none
unfolding read_block
read_block_out m o n h = ground arith

pub clear_block_in :
    (m : List ℕ) (n : ℕ) → n ≤ length m → clear_block m n ≡ some (splice m 0 (replicate n 0))
unfolding clear_block write_block
clear_block_in m n h = ground (arith, length-replicate {A = ℕ} n 0)

pub clear_block_out : (m : List ℕ) (n : ℕ) → length m < n → clear_block m n ≡ none
unfolding clear_block write_block
clear_block_out m n h = ground (arith, length-replicate {A = ℕ} n 0)

-- What a copy that does not fault says of the sizes.
pub read_block-some :
    (m : List ℕ) (o n : ℕ) {out : List ℕ}
    → read_block m o n ≡ some out
    → (o + n ≤ length m) × (length out ≡ n)
unfolding read_block
read_block-some m o n h = ground (arith, length-slice m o n)

pub write_block-some :
    (m : List ℕ) (o : ℕ) (bytes : List ℕ) {out : List ℕ}
    → write_block m o bytes ≡ some out
    → (o + length bytes ≤ length m) × (length out ≡ length m)
unfolding write_block
write_block-some m o bytes h = ground (arith, length-splice m o bytes)

pub clear_block-some :
    (m : List ℕ) (n : ℕ) {out : List ℕ}
    → clear_block m n ≡ some out
    → (n ≤ length m) × (length out ≡ length m)
unfolding clear_block
clear_block-some m n h =
    ground (arith, write_block-some m 0 (replicate n 0) h, length-replicate {A = ℕ} n 0)
