-- ===== src/Devices/File/Laws.antt =====
-- The file backend: its contract, and what opening and closing do.
use vban.Prelude.{
  ap, ℕ, ◌≡◌, ◌≢◌, ◌↔◌, refl, arith, List, true, false, some, Bool-cases, inl, inr, ◌==◌,
  if◌then◌else◌,
}
use vban.Prelude.Int.{ℤ, pos, negsuc, is_negative}
use vban.Prelude.CString.{char_of}
use vban.Stream.{StreamConfig}
use vban.Packet.{no_config}
use vban.Audio.{
  AudioConfig, fresh_audio, audio_set_stream_config, change_stream, open_stream, same_stream,
}
use vban.Audio.Interface.{Direction, BackendLaws, InitResult, initialised, refused}
use vban.Devices.{Files, FilesLaws, FdDevice}
use vban.Devices.File.{
  file_backend_init, is_fd, file_mode, file_open, file_close, file_write, file_read, file_backend,
}

is_fd-eq : (a b : ℤ) → is_fd a b ≡ true → a ≡ b
is_fd-eq (pos m) (pos n) h = ground arith
is_fd-eq (negsuc m) (negsuc n) h = ground arith
is_fd-eq (pos m) (negsuc n) h = absurd (ground arith)
is_fd-eq (negsuc m) (pos n) h = absurd (ground arith)

module _ {World : Type 0} (files : Files World) (laws : FilesLaws files) where
  -- The functions of the file backend keep the contract of a backend: codes that an `int` holds, and
  -- a read that stores as many bytes as it says, and not more than asked for.
  pub file_backend-BackendLaws : BackendLaws (file_backend files)
  unfolding file_write file_read
  file_backend-BackendLaws = record {
    write_int = λ d bytes. laws.write_int d.world d.fd bytes;
    read_int = λ d n. laws.read_int d.world d.fd n;
    read_fits = λ d n. laws.read_fits d.world d.fd n;
    read_count = λ d n k. laws.read_count d.world d.fd n k;
  }

  -- `file_open` returns a negative code if and only if the file has a name and `open` returned -1 for it.
  -- A code that is not negative is 0, and the device's descriptor is not -1 then.
  pub file_open_lem :
      (d : FdDevice World) (name : List ℕ) (dir : Direction) (size : ℕ) (c : StreamConfig)
      → let (ret, d') = file_open files d name dir size c in
        ((is_negative ret ≡ true)
          ↔ ((char_of name ≢ 0) × ((files.open_path d.world name (file_mode dir)).0 ≡ negsuc 0)))
        × (is_negative ret ≡ false → (ret ≡ pos 0) × (is_fd d'.fd (negsuc 0) ≡ false))
  unfolding file_open
  file_open_lem d name dir size c =
      let opened = files.open_path d.world name (file_mode dir) in
      elim (Bool-cases (char_of name == 0)) [
        | inl unnamed ↦ ground (arith, unnamed)
        | inr named ↦ elim (Bool-cases (is_fd opened.0 (negsuc 0))) [
          | inl fails ↦
              let e = is_fd-eq opened.0 (negsuc 0) fails in
              let (k, set) = laws.open_errno d.world name (file_mode dir) e in
              rw (named, fails, set)
                ((λ _. (λ z. ground (arith, named, z), e), λ _. refl), λ h. absurd (ground arith))
          | inr good ↦
              rw (named, good)
                (
                  (λ h. absurd (ground arith), λ (_, e). absurd (ground (arith, good, e))),
                  λ _. (refl, good),
                )
        ]
      ]

module _ {World : Type 0} (files : Files World) where
  initialised_inj : {d d' : FdDevice World} → initialised d ≡ initialised d' → d ≡ d'
  initialised_inj {d} e =
      ap (λ (r : InitResult (FdDevice World)). elim r [ initialised x ↦ x | refused k ↦ d ]) e

  -- The first `audio_set_stream_config` on an audio object whose device `file_backend_init` made, for
  -- parameters that are not all zero, closes the descriptor 0. If that fails it returns the code, and
  -- the object is otherwise as before; else the stream is opened, with the descriptor 0 closed.
  pub first_stream_closes_stdin :
      (config : AudioConfig) (c : StreamConfig) (w : World) (d : FdDevice World)
      → file_backend_init files true w ≡ initialised d
      → same_stream no_config c ≡ false
      → let (code, w') = files.close_fd w (pos 0) in
        let a' = fresh_audio config (record d { world = w' }) in
        audio_set_stream_config (file_backend files) (some (fresh_audio config d)) (some c) ≡ (
          if is_negative code
          then (code, some a')
          else open_stream (file_backend files) (record a' { stream = c }))
  unfolding audio_set_stream_config change_stream file_close file_backend_init
  first_stream_closes_stdin config c w d made new =
      let code = (files.close_fd w (pos 0)).0 in
      elim (Bool-cases (is_negative code)) [
        | inl bad ↦ rw (← initialised_inj made, new, bad) refl
        | inr good ↦ rw (← initialised_inj made, new, good) refl
      ]
