-- ===== src/Devices/Alsa/Laws.antt =====
-- The ALSA device: when it is open, and what the callers of its transfers are told.
use vban.Prelude.{
  ℕ, zero, suc, [], ◌∷◌, ◌+◌, ◌-◌, ◌*◌, ◌/◌, ◌%◌, ◌^◌, ◌≤◌, ◌<◌, ◌≡◌, refl, ap, ◌∙◌, arith, true,
  false, List, Option, none, some, length, take, ◌==◌, if◌then◌else◌,
}
use vban.Prelude.Int.{ℤ, pos, negsuc, is_negative, IsInt}
use vban.Stream.{StreamConfig}
use vban.Audio.Interface.{Direction}
use vban.Audio.Sizes.{exact_quotient}
use vban.Devices.Alsa.{Alsa, AlsaDevice, open_calls, recovered, in_bytes, write_handle, alsa_write}

-- Frames as bytes: a count of frames, and an error code.
in_bytes_lem : (fs k : ℕ) → 0 < fs → k * fs < 2 ^ 31 → in_bytes fs (pos k) ≡ pos (k * fs)
in_bytes_lem fs k some_byte small =
    let le : k ≤ k * fs = grind (arith, some_byte) in
    let narrow : k % 2 ^ 64 ≡ k = omega (arith, le, small) in
    let product : k % 2 ^ 64 * fs % 2 ^ 64 ≡ k * fs = rw narrow (omega arith) in
    ground (arith, product)

in_bytes_error :
    (fs k : ℕ) → 0 < fs → (k + 1) * fs ≤ 2 ^ 31 → in_bytes fs (negsuc k) ≡ negsuc ((k + 1) * fs - 1)
in_bytes_error fs k some_byte small =
    let le : k + 1 ≤ (k + 1) * fs = grind (arith, some_byte) in
    let m = 2 ^ 64 - 1 - k in
    let whole : m + (k + 1) ≡ 2 ^ 64 = omega (arith, le, small) in
    let product : m * fs + (k + 1) * fs ≡ 2 ^ 64 * fs = omega (arith, ap (λ t. t * fs) whole) in
    let low : k % 2 ^ 64 ≡ k = omega (arith, le, small) in
    let x : m * fs % 2 ^ 64 ≡ 2 ^ 64 - (k + 1) * fs =
      omega (arith, product, small, le, some_byte) in
    let y : (2 ^ 64 - 1 - k % 2 ^ 64) * fs % 2 ^ 64 ≡ 2 ^ 64 - (k + 1) * fs = rw low x in
    ground (arith, y, small, le)

-- What the callers are told: frames as bytes, and an error code times the frame size.
abbrev pub reported : ℕ → ℤ → ℤ
reported frame_size (pos k) = pos (k * frame_size)
reported frame_size (negsuc e) = negsuc ((e + 1) * frame_size - 1)

in_bytes-reported :
    (fs : ℕ) (ret : ℤ) → 0 < fs → IsInt (reported fs ret) → in_bytes fs ret ≡ reported fs ret
in_bytes-reported fs (pos k) some_byte int = in_bytes_lem fs k some_byte int
in_bytes-reported fs (negsuc e) some_byte int = in_bytes_error fs e some_byte (omega (arith, int))

take_all : (n : ℕ) (xs : List ℕ) → length xs ≤ n → take n xs ≡ xs
take_all zero [] h = refl
take_all (suc n) [] h = refl
take_all zero (x ∷ xs) h = absurd (omega arith)
take_all (suc n) (x ∷ xs) h = ap (λ l. x ∷ l) (take_all n xs (omega arith))

module _ {World Pcm : Type 0} (alsa : Alsa World Pcm) where
  -- None of the calls, made in turn, answers a negative code.
  pub data AllAnswer : List (World → ℤ × World) → World → World → Type 0 where
    done : {w : World} → AllAnswer [] w w
    answers :
        {call : World → ℤ × World} {calls : List (World → ℤ × World)} {w w' : World}
        → is_negative (call w).0 ≡ false
        → AllAnswer calls (call w).1 w'
        → AllAnswer (call ∷ calls) w w'

  -- One of the calls answers a negative code, and those before it do not.
  pub data OneFails : List (World → ℤ × World) → World → ℤ → World → Type 0 where
    here :
        {call : World → ℤ × World} {calls : List (World → ℤ × World)} {w : World}
        → is_negative (call w).0 ≡ true
        → OneFails (call ∷ calls) w (call w).0 (call w).1
    later :
        {call : World → ℤ × World} {calls : List (World → ℤ × World)} {w w' : World} {code : ℤ}
        → is_negative (call w).0 ≡ false
        → OneFails calls (call w).1 code w'
        → OneFails (call ∷ calls) w code w'

  -- What `run_calls` returns: the code of the call that failed, if one did.
  data HasRun (calls : List (World → ℤ × World)) (w : World) (ret : ℤ) (w' : World) : Type 0 where
    succeeded : is_negative ret ≡ false → AllAnswer calls w w' → HasRun calls w ret w'
    broke_off : is_negative ret ≡ true → OneFails calls w ret w' → HasRun calls w ret w'

  -- The device once `snd_pcm_open` gave `pcm` and left the system as `w`: it holds that handle, after
  -- all calls that set it, or one of them failed, and the handle was closed.
  pub data IsConfigured (pcm : Pcm) (c : StreamConfig) (w : World)
      : ℤ → AlsaDevice World Pcm → Type 0 where
    configured :
        {frame_size : ℕ} {w' : World}
        → AllAnswer (open_calls alsa pcm c) w w'
        → IsConfigured pcm c w
            (pos 0)
            (record { handle = some pcm; frame_size = frame_size; world = w' })
    unset :
        {code : ℤ} {frame_size : ℕ} {w' : World}
        → is_negative code ≡ true
        → OneFails (open_calls alsa pcm c) w code w'
        → IsConfigured pcm c w code
            (record { handle = none; frame_size = frame_size; world = (alsa.pcm_close pcm w').1 })

  -- What `alsa_open` leaves: `snd_pcm_open` failed, or it gave a handle, which was then set up.
  pub data IsOpened (d : AlsaDevice World Pcm) (name : List ℕ) (dir : Direction) (c : StreamConfig)
      : ℤ → AlsaDevice World Pcm → Type 0 where
    refused :
        {code : ℤ} {pcm : Pcm} {w : World} {frame_size : ℕ}
        → alsa.pcm_open d.world name dir ≡ (code, pcm, w)
        → is_negative code ≡ true
        → IsOpened d name dir c code (record { handle = none; frame_size = frame_size; world = w })
    given :
        {code ret : ℤ} {pcm : Pcm} {w : World} {d' : AlsaDevice World Pcm}
        → alsa.pcm_open d.world name dir ≡ (code, pcm, w)
        → is_negative code ≡ false
        → IsConfigured pcm c w ret d'
        → IsOpened d name dir c ret d'

  write_frames :
      (d : AlsaDevice World Pcm) (pcm : Pcm) (data_in : List ℕ) (frames : ℕ)
      → d.handle ≡ some pcm
      → 0 < d.frame_size
      → length data_in ≡ frames * d.frame_size
      → let (ret, w) = alsa.writei pcm (take (frames * d.frame_size) data_in) frames d.world in
        let (code, w') = recovered alsa pcm ret w in
        alsa_write alsa d data_in ≡ some (in_bytes d.frame_size code, record d { world = w' })
  unfolding alsa_write write_handle
  write_frames d pcm data_in frames holds some_byte whole =
      let counted : length data_in / d.frame_size ≡ frames =
        exact_quotient frames d.frame_size (length data_in) some_byte whole in
      let divides : (d.frame_size == 0) ≡ false = ground (arith, some_byte) in
      rw (holds, divides, counted) refl

  -- `alsa_write` of whole frames on a device with a handle hands ALSA exactly those frames, and hands a
  -- negative answer to `snd_pcm_recover`. Where the result fits an `int`, a number of frames is reported
  -- as their bytes, but an error code that the recovery gives is reported multiplied by the frame size.
  pub alsa_write_lem :
      (d : AlsaDevice World Pcm) (pcm : Pcm) (data_in : List ℕ) (frames : ℕ)
      → d.handle ≡ some pcm
      → 0 < d.frame_size
      → length data_in ≡ frames * d.frame_size
      → let (ret, w) = alsa.writei pcm data_in frames d.world in
        (code : ℤ) (w' : World)
        → (if is_negative ret then alsa.recover pcm ret w else (ret, w)) ≡ (code, w')
        → IsInt (reported d.frame_size code)
        → alsa_write alsa d data_in ≡ some (reported d.frame_size code, record d { world = w' })
  unfolding recovered
  alsa_write_lem d pcm data_in frames holds some_byte whole code w' told_by int =
      let all : take (frames * d.frame_size) data_in ≡ data_in =
        take_all (frames * d.frame_size) data_in (omega (arith, whole)) in
      let told : ℤ × World → Option (ℤ × AlsaDevice World Pcm) =
        λ r. some (in_bytes d.frame_size r.0, record d { world = r.1 }) in
      let said : ℤ → Option (ℤ × AlsaDevice World Pcm) = λ z. some (z, record d { world = w' }) in
      write_frames d pcm data_in frames holds some_byte whole
      ∙ rw all (ap told told_by)
      ∙ ap said (in_bytes-reported d.frame_size code some_byte int)
