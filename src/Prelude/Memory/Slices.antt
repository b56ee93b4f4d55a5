-- ===== src/Prelude/Memory/Slices.antt =====
-- Slices of blocks that were copied from one place to another.
use vban.Prelude.Lists.{length, take, drop, get_or, length-drop}
use vban.Prelude.Memory.{slice, splice, length-slice, get_or-slice, get_or-splice_in}
use Prim.Native.Nat.{ℕ, zero, suc, ◌+◌, ◌-◌, ◌≤◌, ◌<◌}
use mathlib.Core.Path.{◌≡◌, refl, ap, sym, ◌∙◌}
use mathlib.Core.List.{List, [], ◌∷◌, ◌++◌}
use native.Mathlib.Omega.{arith}

take-append_in : (n : ℕ) (xs ys : List ℕ) → n ≤ length xs → take n (xs ++ ys) ≡ take n xs
take-append_in zero xs ys h = refl
take-append_in (suc n) [] ys h = absurd (omega arith)
take-append_in (suc n) (x ∷ xs) ys h = ap (λ l. x ∷ l) (take-append_in n xs ys (omega arith))

pub slice-append :
    (xs ys : List ℕ) (o n : ℕ) → o + n ≤ length xs → slice (xs ++ ys) o n ≡ slice xs o n
slice-append xs ys zero n h = take-append_in n xs ys (omega arith)
slice-append [] ys (suc o) n h = absurd (omega arith)
slice-append (x ∷ xs) ys (suc o) n h = slice-append xs ys o n (omega arith)

take-take_in : (n k : ℕ) (xs : List ℕ) → n ≤ k → take n (take k xs) ≡ take n xs
take-take_in zero k xs h = refl
take-take_in (suc n) zero xs h = absurd (omega arith)
take-take_in (suc n) (suc k) [] h = refl
take-take_in (suc n) (suc k) (x ∷ xs) h = ap (λ l. x ∷ l) (take-take_in n k xs (omega arith))

slice-take : (xs : List ℕ) (k o n : ℕ) → o + n ≤ k → slice (take k xs) o n ≡ slice xs o n
slice-take xs k zero n h = take-take_in n k xs (omega arith)
slice-take xs zero (suc o) n h = absurd (omega arith)
slice-take [] (suc k) (suc o) n h = refl
slice-take (x ∷ xs) (suc k) (suc o) n h = slice-take xs k o n (omega arith)

-- A block that holds the first `k` bytes of another at its front agrees with it there.
pub slice-copied :
    (m dest : List ℕ) (k o n : ℕ)
    → k ≤ length m
    → o + n ≤ k
    → slice (splice dest 0 (slice m 0 k)) o n ≡ slice m o n
unfolding splice
slice-copied m dest k o n fits h =
    rw
      (slice-append (slice m 0 k) (drop (0 + length (slice m 0 k)) dest) o n
        (omega (arith, length-slice m 0 k (omega (arith, fits)))))
      (slice-take m k o n h)

pub get_or-copied :
    (m dest : List ℕ) (k i : ℕ)
    → k ≤ length m
    → k ≤ length dest
    → i < k
    → get_or (splice dest 0 (slice m 0 k)) i 0 ≡ get_or m i 0
get_or-copied m dest k i fits room h =
    let at : 0 + i ≡ i = omega arith in
    let counted = length-slice m 0 k (omega (arith, fits)) in
    ap (λ j. get_or (splice dest 0 (slice m 0 k)) j 0) (sym at)
    ∙ get_or-splice_in dest 0 (slice m 0 k) i (omega (arith, counted)) (omega (arith, counted))
    ∙ get_or-slice m 0 k i h
    ∙ ap (λ j. get_or m j 0) at

-- A slice of two blocks, one behind the other: inside the second, and across the border.
pub slice-append_behind :
    (xs ys : List ℕ) (o n : ℕ) → length xs ≤ o → slice (xs ++ ys) o n ≡ slice ys (o - length xs) n
slice-append_behind [] ys o n h = ap (λ k. slice ys k n) (omega arith)
slice-append_behind (x ∷ xs) ys zero n h = absurd (omega arith)
slice-append_behind (x ∷ xs) ys (suc o) n h =
    slice-append_behind xs ys o n (omega arith) ∙ ap (λ k. slice ys k n) (omega arith)

take-append_across :
    (xs ys : List ℕ) (n : ℕ) → length xs ≤ n → take n (xs ++ ys) ≡ xs ++ take (n - length xs) ys
take-append_across [] ys n h = ap (λ k. take k ys) (omega arith)
take-append_across (x ∷ xs) ys zero h = absurd (omega arith)
take-append_across (x ∷ xs) ys (suc n) h =
    ap (λ l. x ∷ l) (take-append_across xs ys n (omega arith))
    ∙ ap (λ k. x ∷ (xs ++ take k ys)) (omega arith)

drop-append_in : (n : ℕ) (xs ys : List ℕ) → n ≤ length xs → drop n (xs ++ ys) ≡ drop n xs ++ ys
drop-append_in zero xs ys h = refl
drop-append_in (suc n) [] ys h = absurd (omega arith)
drop-append_in (suc n) (x ∷ xs) ys h = drop-append_in n xs ys (omega arith)

pub slice-append_across :
    (xs ys : List ℕ) (o n : ℕ)
    → o ≤ length xs
    → length xs ≤ o + n
    → slice (xs ++ ys) o n ≡ drop o xs ++ slice ys 0 (n - length (drop o xs))
slice-append_across xs ys o n low high =
    ap (λ l. take n l) (drop-append_in o xs ys low)
    ∙ take-append_across (drop o xs) ys n (omega (arith, length-drop o xs))
