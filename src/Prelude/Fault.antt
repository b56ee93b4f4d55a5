-- ===== src/Prelude/Fault.antt =====
-- Code whose behaviour may be undefined: `none` is a fault (an access out of range, a null pointer
-- that is followed, a division by zero), and a `do` block stops at the first one.
use mathlib.Core.Path.{◌≡◌, refl, ap}
use vban.Prelude.Tests.{if◌then◌else◌}
use mathlib.Core.Bool.{Bool, true, false}
use mathlib.Core.Option.{Option, none, some}

infixl 5 ◌>>=◌
abbrev pub ◌>>=◌ {ℓ κ} : {A : Type ℓ} {B : Type κ} → Option A → (A → Option B) → Option B
none >>= f = none
some a >>= f = f a

pub >>=-some {ℓ κ} :
    {A : Type ℓ} {B : Type κ} (o : Option A) (f : A → Option B) {b : B}
    → (o >>= f) ≡ some b
    → (a : A) × (o ≡ some a) × (f a ≡ some b)
>>=-some none f h = absurd (cc)
>>=-some (some a) f h = (a, refl, h)

pub some_inj {ℓ} : {A : Type ℓ} {a b : A} → some a ≡ some b → a ≡ b
some_inj {A} {a} h = ap (λ o. elim o [ some x ↦ x | none ↦ a ]) h

-- What holds of a result, if there is one.
abbrev pub Ensures : {A : Type 0} → (A → Type 0) → Option A → Type 0
Ensures P none = Unit {0}
Ensures P (some a) = P a

pub Ensures-if :
    {A : Type 0} (P : A → Type 0) (test : Bool) (left right : Option A)
    → Ensures P left
    → Ensures P right
    → Ensures P (if test then left else right)
Ensures-if P true left right hl hr = hl
Ensures-if P false left right hl hr = hr

pub Ensures->>= :
    {A B : Type 0} (Q : A → Type 0) (P : B → Type 0) (o : Option A) (f : A → Option B)
    → Ensures Q o
    → ((a : A) → Q a → Ensures P (f a))
    → Ensures P (o >>= f)
Ensures->>= Q P none f h k = tt
Ensures->>= Q P (some a) f h k = k a h

-- A case of the `switch` that uses `optarg` first, in front of the other cases.
pub Ensures-case :
    {A B : Type 0} (Q : A → Type 0) (P : B → Type 0) (test : Bool) (o : Option A) (f : A → Option B)
    (other : Option B)
    → Ensures Q o
    → ((a : A) → Q a → Ensures P (f a))
    → Ensures P other
    → Ensures P (if test then (o >>= f) else other)
Ensures-case Q P test o f other h k h' =
    Ensures-if P test (o >>= f) other (Ensures->>= Q P o f h k) h'

pub Ensures-any : {A : Type 0} (o : Option A) → Ensures (λ a. Unit {0}) o
Ensures-any none = tt
Ensures-any (some a) = tt

pub Ensures-some :
    {A : Type 0} (P : A → Type 0) {o : Option A} {a : A} → Ensures P o → o ≡ some a → P a
Ensures-some P h e = rw e at h

-- What is left of a program whose loop was run for some rounds: it still runs, or it has exited.
pub data Progress (S R : Type 0) : Type 0 where
  still_running : S → Progress S R
  exited : R → Progress S R
