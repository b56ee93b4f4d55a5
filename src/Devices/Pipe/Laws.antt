-- ===== src/Devices/Pipe/Laws.antt =====
-- The pipe backend: its contract, and how it reports a pipe that it cannot open.
use vban.Prelude.{
  ℕ, ◌≡◌, ◌↔◌, refl, arith, List, true, false, inl, inr, Bool-cases, ◌==◌, if◌then◌else◌,
}
use vban.Prelude.Int.{negsuc, is_negative}
use vban.Prelude.CString.{char_of}
use vban.Devices.File.{is_fd}
use vban.Stream.{StreamConfig}
use vban.Audio.Interface.{Direction, BackendLaws}
use vban.Devices.{Files, FilesLaws, FdDevice}
use vban.Devices.Pipe.{pipe_mode, pipe_open, pipe_write, pipe_read, pipe_backend, fifo_filename}

module _ {World : Type 0} (files : Files World) (laws : FilesLaws files) where
  -- The functions of the pipe backend keep the contract of a backend: codes that an `int` holds, and
  -- a read that stores as many bytes as it says, and not more than asked for.
  pub pipe_backend-BackendLaws : BackendLaws (pipe_backend files)
  unfolding pipe_write pipe_read
  pipe_backend-BackendLaws = record {
    write_int = λ d bytes. laws.write_int d.world d.fd bytes;
    read_int = λ d n. laws.read_int d.world d.fd n;
    read_fits = λ d n. laws.read_fits d.world d.fd n;
    read_count = λ d n k. laws.read_count d.world d.fd n k;
  }

module _ {World : Type 0} (files : Files World) where
  -- `pipe_open` returns a negative code if and only if `mkfifo` did. Otherwise the device's descriptor is
  -- what `open` returned for the path, and a path that cannot be opened is not reported.
  pub pipe_open_lem :
      (d : FdDevice World) (name : List ℕ) (dir : Direction) (size : ℕ) (c : StreamConfig)
      → let (code, made) = files.make_fifo d.world fifo_filename in
        let path = if char_of name == 0 then fifo_filename else name in
        let (ret, d') = pipe_open files d name dir size c in
        ((is_negative ret ≡ true) ↔ (is_negative code ≡ true))
        × (is_negative code ≡ false → d'.fd ≡ (files.open_path made path (pipe_mode dir)).0)
  unfolding pipe_open
  pipe_open_lem d name dir size c =
      let made = files.make_fifo d.world fifo_filename in
      let path = if char_of name == 0 then fifo_filename else name in
      let opened = files.open_path made.1 path (pipe_mode dir) in
      elim (Bool-cases (is_negative made.0)) [
        | inl bad ↦ rw bad ((λ _. refl, λ _. bad), λ h. absurd (ground arith))
        | inr good ↦ elim (Bool-cases (is_fd opened.0 (negsuc 0))) [
          | inl fails ↦
              rw (good, fails)
                ((λ h. absurd (ground (arith, good, h)), λ h. absurd (ground arith)), λ _. refl)
          | inr opens ↦
              rw (good, opens) ((λ h. absurd (ground arith), λ h. absurd (ground arith)), λ _. refl)
        ]
      ]
