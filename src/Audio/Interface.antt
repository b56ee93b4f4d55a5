-- ===== src/Audio/Interface.antt =====
-- `struct audio_backend_t` of src/common/backend/audio_backend.h: the four functions that a sound
-- system gives to the audio object, over the memory of its own. And the choice among them by name,
-- src/common/backend/audio_backend.c.
pub mod Choice
pub mod Help
use vban.Prelude.{ℕ, ◌≤◌, ◌≡◌, List, length, true, false, [], ◌∷◌, ◌==◌, if◌then◌else◌}
use vban.Prelude.Int.{ℤ, pos, IsInt, einval}
use vban.Prelude.CString.{char_of, strcmp_eq}
use vban.Stream.{StreamConfig}

-- `enum audio_direction`
pub data Direction : Type 0 where
  audio_in audio_out : Direction

-- The functions of a backend whose state is a `Device`. `write_data` is given the bytes that it may
-- read; `read_data` is given the size, and returns the bytes that it stores into the caller's memory.
pub record Backend (Device : Type 0) : Type 0 where
  pub open_device : Device → List ℕ → Direction → ℕ → StreamConfig → ℤ × Device
  pub close_device : Device → ℤ × Device
  pub write_data : Device → List ℕ → ℤ × Device
  pub read_data : Device → ℕ → ℤ × List ℕ × Device

-- What the audio object relies on: return codes that an `int` holds, and a read that stores no more
-- than it was asked for, and as much as it says.
pub record BackendLaws {Device : Type 0} (b : Backend Device) : Type 0 where
  pub write_int : (d : Device) (bytes : List ℕ) → IsInt (b.write_data d bytes).0
  pub read_int : (d : Device) (n : ℕ) → IsInt (b.read_data d n).0
  pub read_fits : (d : Device) (n : ℕ) → length (b.read_data d n).1 ≤ n
  pub read_count :
      (d : Device) (n k : ℕ) → (b.read_data d n).0 ≡ pos k → length (b.read_data d n).1 ≡ k

-- What an `audio_backend_init_f` does: it allocates a device and returns 0, or returns an error.
pub data InitResult (Device : Type 0) : Type 0 where
  initialised : Device → InitResult Device
  refused : ℤ → InitResult Device

-- `struct backend_list_item_t`
pub record BackendItem (Device : Type 0) : Type 0 where
  pub name : List ℕ
  pub init_function : InitResult Device

module _ {Device : Type 0} where
  -- The `for` loop of `audio_backend_get_by_name`.
  pub find_by_name : List ℕ → List (BackendItem Device) → InitResult Device
  unfolding strcmp_eq
  find_by_name name [] = refused einval
  find_by_name name (item ∷ items) =
      if strcmp_eq name item.name then item.init_function else find_by_name name items

  -- `audio_backend_get_by_name`, over the list that the build makes: its first item is the default.
  unfoldable pub audio_backend_get_by_name :
      List ℕ → BackendItem Device → List (BackendItem Device) → InitResult Device
  unfolding find_by_name
  audio_backend_get_by_name name first items =
      if char_of name == 0 then first.init_function else find_by_name name (first ∷ items)
