-- ===== src/Audio/Interface/Choice.antt =====
-- Which backend `audio_backend_get_by_name` takes.
use vban.Prelude.{
  ℕ, zero, suc, ◌<◌, ◌≡◌, ◌≢◌, ◌↔◌, refl, arith, List, [], ◌∷◌, some, get_elem?, ◌==◌, true, false,
}
use vban.Prelude.Int.{einval}
use vban.Prelude.CString.{char_of, text_of, strcmp_eq_iff}
use vban.Audio.Interface.{BackendItem, refused, find_by_name, audio_backend_get_by_name}

empty_iff : (name : List ℕ) → ((char_of name == 0) ≡ true) ↔ (text_of name ≡ [])
empty_iff [] = ground arith
empty_iff (c ∷ name) = ground arith

named : (name : List ℕ) → text_of name ≢ [] → (char_of name == 0) ≡ false
named name h = ground (arith, empty_iff name, h)

module _ {Device : Type 0} where
  -- The loop stops at the first item of the name, if there is one.
  find_by_name-first :
      (name : List ℕ) (items : List (BackendItem Device)) (i : ℕ) (item : BackendItem Device)
      → get_elem? items i ≡ some item
      → text_of name ≡ text_of item.name
      → ((j : ℕ) (other : BackendItem Device)
          → j < i
          → get_elem? items j ≡ some other
          → text_of name ≢ text_of other.name)
      → find_by_name name items ≡ item.init_function
  unfolding find_by_name
  find_by_name-first name [] i item at_i same before = absurd (cc)
  find_by_name-first name (x ∷ items) zero item at_i same before =
      ground (arith, strcmp_eq_iff name x.name)
  find_by_name-first name (x ∷ items) (suc i) item at_i same before = ground (
    arith,
    strcmp_eq_iff name x.name,
    before 0 x,
    find_by_name-first name items i item at_i same
        (λ j other lt at_j. before (suc j) other (omega arith) at_j),
  )

  find_by_name-none :
      (name : List ℕ) (items : List (BackendItem Device))
      → ((j : ℕ) (other : BackendItem Device)
          → get_elem? items j ≡ some other
          → text_of name ≢ text_of other.name)
      → find_by_name name items ≡ refused einval
  unfolding find_by_name
  find_by_name-none name [] missing = refl
  find_by_name-none name (x ∷ items) missing = ground (
    arith,
    strcmp_eq_iff name x.name,
    missing 0 x,
    find_by_name-none name items (λ j other at_j. missing (suc j) other at_j),
  )

  -- `audio_backend_get_by_name` takes the default for an empty name, the first item of a name that is
  -- in the list, and returns -EINVAL for any other name.
  pub get_by_name_lem :
      (name : List ℕ) (first : BackendItem Device) (items : List (BackendItem Device))
      → (text_of name ≡ [] → audio_backend_get_by_name name first items ≡ first.init_function)
        × ((i : ℕ) (item : BackendItem Device)
            → text_of name ≢ []
            → get_elem? (first ∷ items) i ≡ some item
            → text_of name ≡ text_of item.name
            → ((j : ℕ) (other : BackendItem Device)
                → j < i
                → get_elem? (first ∷ items) j ≡ some other
                → text_of name ≢ text_of other.name)
            → audio_backend_get_by_name name first items ≡ item.init_function)
        × (text_of name ≢ []
            → ((j : ℕ) (other : BackendItem Device)
                → get_elem? (first ∷ items) j ≡ some other
                → text_of name ≢ text_of other.name)
            → audio_backend_get_by_name name first items ≡ refused einval)
  unfolding audio_backend_get_by_name
  get_by_name_lem name first items = (
    λ e. ground (arith, (empty_iff name).1 e),
    λ i item some_name at_i same before.
        rw (named name some_name) (find_by_name-first name (first ∷ items) i item at_i same before),
    λ some_name missing. rw (named name some_name) (find_by_name-none name (first ∷ items) missing),
  )
