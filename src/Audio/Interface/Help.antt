-- ===== src/Audio/Interface/Help.antt =====
-- The list of backends that a build has, and `audio_backend_get_help` of
-- src/common/backend/audio_backend.c. `snprintf` is the one of the C standard: it stores the text as far
-- as it fits, and a 0 behind it.
use vban.Prelude.{
  ℕ, ◌+◌, ◌-◌, ◌%◌, ◌^◌, ◌≤◌, ◌<◌, ◌≡◌, refl, sym, ap, ◌∙◌, arith, Bool, true, false, List, [], ◌∷◌,
  ◌++◌, Option, some, length, length-append, length-replicate, replicate, take, drop, ◌==◌,
  if◌then◌else◌, ◌>>=◌,
}
use mathlib.Core.List.{append_assoc, append-nil}
use vban.Prelude.Memory.{splice, length-splice, write_block, write_block_in, take-append}
use vban.Prelude.CString.{codes, text_of}
use vban.Audio.Interface.{BackendItem, InitResult}

-- The options of the build: which backends are compiled in besides those for pipes and files.
pub record Build : Type 0 where
  pub alsa : Bool
  pub pulseaudio : Bool
  pub jack : Bool

-- `HELP_TEXT_LEN`
abbrev pub help_text_len : ℕ
help_text_len = 2048

-- What `snprintf` stores, given room for `n` bytes.
abbrev printed : ℕ → List ℕ → List ℕ
printed n text = if n == 0 then [] else take (n - 1) text ++ (0 ∷ [])

-- `offset += snprintf(help_text + offset, HELP_TEXT_LEN - offset, ...)`, with a `size_t` difference.
pub add_text : List ℕ → List ℕ × ℕ → Option (List ℕ × ℕ)
add_text text (m, offset) =
    write_block m offset (printed ((help_text_len + 2 ^ 64 - offset) % 2 ^ 64) text) >>= λ m'.
    some (m', (offset + length text) % 2 ^ 64)

module _ {Device : Type 0} where
  abbrev when : Bool → BackendItem Device → List (BackendItem Device) → List (BackendItem Device)
  when true item items = item ∷ items
  when false item items = items

  -- `backend_list`, for the five functions of type `audio_backend_init_f`.
  abbrev pub backend_list :
      Build → (alsa pulseaudio jack pipe file : InitResult Device) → List (BackendItem Device)
  backend_list build alsa pulseaudio jack pipe file =
      when build.alsa (record { name = codes "alsa"; init_function = alsa })
        (when build.pulseaudio (record { name = codes "pulseaudio"; init_function = pulseaudio })
          (when build.jack (record { name = codes "jack"; init_function = jack })
            (record { name = codes "pipe"; init_function = pipe }
              ∷ record { name = codes "file"; init_function = file }
              ∷ [])))

  -- The `for` loop.
  pub add_names : List (BackendItem Device) → List ℕ × ℕ → Option (List ℕ × ℕ)
  add_names [] done = some done
  add_names (item ∷ items) done =
      add_text (text_of item.name ++ codes " ") done >>= λ done'. add_names items done'

  -- `audio_backend_get_help` on a list of backends: the static array afterwards.
  pub audio_backend_get_help : BackendItem Device → List (BackendItem Device) → Option (List ℕ)
  audio_backend_get_help first items = do
    intro ← add_text (codes "Available audio backends are: ") (replicate help_text_len 0, 0)
    listed ← add_names (first ∷ items) intro
    (m, offset) ← add_text (codes ". default is " ++ (text_of first.name ++ codes ".")) listed
    some m

  -- The text, item by item.
  abbrev pub names_text : List (BackendItem Device) → List ℕ
  names_text [] = []
  names_text (item ∷ items) = (text_of item.name ++ codes " ") ++ names_text items

  abbrev pub help_text : BackendItem Device → List (BackendItem Device) → List ℕ
  help_text first items =
      (codes "Available audio backends are: " ++ names_text (first ∷ items))
      ++ (codes ". default is " ++ (text_of first.name ++ codes "."))

-- The array holds a text, and the 0 behind it.
pub record IsPrinted (text m : List ℕ) : Type 0 where
  pub long : length m ≡ help_text_len
  pub rest : List ℕ
  pub split : m ≡ text ++ (0 ∷ rest)

take_all : (text : List ℕ) (n : ℕ) → length text ≤ n → take n text ≡ text
take_all [] ℕ.zero h = refl
take_all [] (ℕ.suc n) h = refl
take_all (x ∷ text) ℕ.zero h = absurd (omega arith)
take_all (x ∷ text) (ℕ.suc n) h = ap (λ l. x ∷ l) (take_all text n (omega arith))

add_text-IsPrinted :
    (text more m : List ℕ)
    → IsPrinted text m
    → length (text ++ more) < help_text_len
    → (m' : List ℕ) × (add_text more (m, length text) ≡ some (m', length (text ++ more)))
      × IsPrinted (text ++ more) m'
unfolding add_text splice
add_text-IsPrinted text more m p short =
    let n = (help_text_len + 2 ^ 64 - length text) % 2 ^ 64 in
    let both : length (text ++ more) ≡ length text + length more = length-append text more in
    let room : n ≡ help_text_len - length text = omega (arith, both) in
    let some_room : (n == 0) ≡ false = ground (arith, room, both) in
    let kept : take (n - 1) more ≡ more = take_all more (n - 1) (omega (arith, room, both)) in
    let stored = more ++ (0 ∷ []) in
    let stored_long : length stored ≡ length more + 1 = length-append more (0 ∷ []) in
    let inside : length text + length stored ≤ length m =
      omega (arith, stored_long, p.long, both) in
    let wraps : (length text + length more) % 2 ^ 64 ≡ length (text ++ more) =
      omega (arith, both) in
    let behind = drop (length text + length stored) m in
    let front : take (length text) m ≡ text =
      ap (λ l. take (length text) l) p.split ∙ take-append text (0 ∷ p.rest) (length text) refl in
    (
      splice m (length text) stored,
      rw (some_room, kept, write_block_in m (length text) stored inside, wraps) refl,
      record {
        long = length-splice m (length text) stored inside ∙ p.long;
        rest = behind;
        split =
            ap (λ l. l ++ (stored ++ behind)) front
            ∙ ap (λ l. text ++ l) (append_assoc more (0 ∷ []) behind)
            ∙ sym (append_assoc text more (0 ∷ behind));
      },
    )

module _ {Device : Type 0} where
  add_names-IsPrinted :
      (items : List (BackendItem Device)) (text m : List ℕ)
      → IsPrinted text m
      → length (text ++ names_text items) < help_text_len
      → (m' : List ℕ) × (add_names items (m, length text)
          ≡ some (m', length (text ++ names_text items)))
        × IsPrinted (text ++ names_text items) m'
  unfolding add_names
  add_names-IsPrinted [] text m p short = rw append-nil (m, refl, p)
  add_names-IsPrinted (item ∷ items) text m p short =
      let more = text_of item.name ++ codes " " in
      let assoc = append_assoc text more (names_text items) in
      let (m', adds, p') = add_text-IsPrinted text more m p (
        omega (
          arith,
          length-append text more,
          length-append text (more ++ names_text items),
          length-append more (names_text items),
        )) in
      let (m'', lists, p'') = add_names-IsPrinted items (text ++ more) m' p' (rw assoc short) in
      (m'', rw adds (lists ∙ ap (λ l. some (m'', length l)) assoc), rw (← assoc) p'')

  -- Where the text of all names is shorter than the array, `audio_backend_get_help` does not write behind
  -- the array, and leaves in it the introduction, each name with a space behind it, the name of the
  -- default, which is the first, and a 0.
  pub get_help_lem :
      (first : BackendItem Device) (items : List (BackendItem Device))
      → length (help_text first items) < help_text_len
      → (m : List ℕ) × (audio_backend_get_help first items ≡ some m)
        × IsPrinted (help_text first items) m
  unfolding audio_backend_get_help
  get_help_lem first items short =
      let intro = codes "Available audio backends are: " in
      let names = names_text (first ∷ items) in
      let default = codes ". default is " ++ (text_of first.name ++ codes ".") in
      let zeros : IsPrinted [] (replicate help_text_len 0) = record {
        long = length-replicate {A = ℕ} help_text_len 0;
        rest = replicate 2047 0;
        split = refl;
      } in
      let all = length-append (intro ++ names) default in
      let (m, starts, p) =
        add_text-IsPrinted [] intro (replicate help_text_len 0) zeros (omega arith) in
      let (m', lists, p') = add_names-IsPrinted (first ∷ items) intro m p (omega (arith, all)) in
      let (m'', ends, p'') = add_text-IsPrinted (intro ++ names) default m' p' short in
      (m'', rw (starts, lists, ends) refl, p'')
