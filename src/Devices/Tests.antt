-- ===== src/Devices/Tests.antt =====
-- The file and the pipe backend on a concrete file system, in which no path can be opened.
use vban.Prelude.{
  ℕ, ◌≡◌, ◌↔◌, refl, arith, [], some, true, false, length, length-replicate, replicate, ltb, ◌==◌,
  if◌then◌else◌,
}
use vban.Prelude.Int.{pos, negsuc, is_negative, enomem}
use vban.Prelude.CString.{codes, char_of}
use vban.Audio.{fresh_audio, audio_set_stream_config}
use vban.Audio.Interface.{audio_out, BackendLaws, initialised, refused}
use vban.Devices.{Files, FilesLaws, FdDevice}
use vban.Devices.File.{file_backend, file_close, file_backend_init}
use vban.Devices.File.Laws.{file_backend-BackendLaws, first_stream_closes_stdin}
use vban.Devices.Pipe.{fifo_filename, pipe_mode, pipe_open, pipe_close, pipe_backend_init}
use vban.Devices.Pipe.Laws.{pipe_open_lem}
use vban.Samples.{stereo, player_config}

-- The state is the number of calls.
abbrev broken : Files ℕ
broken = record {
  open_path = λ w path mode. (negsuc 0, ℕ.suc w);
  close_fd = λ w fd. (negsuc 0, ℕ.suc w);
  write_fd =
      λ w fd bytes. (if ltb (length bytes) 4096 then pos (length bytes) else negsuc 0, ℕ.suc w);
  read_fd =
      λ w fd n. if ltb n 4096 then (pos n, replicate n 7, ℕ.suc w) else (negsuc 0, [], ℕ.suc w);
  make_fifo = λ w path. (pos 0, ℕ.suc w);
  unlink = λ w path. ℕ.suc w;
  errno = λ w. pos 2;
}

broken-FilesLaws : FilesLaws broken
broken-FilesLaws = record {
  write_int = λ w fd bytes. ground arith;
  read_int = λ w fd n. ground arith;
  read_fits = λ w fd n. ground (arith, length-replicate {A = ℕ} n 7);
  read_count = λ w fd n k e. ground (arith, e, length-replicate {A = ℕ} n 7);
  open_errno = λ w path mode e. (1, refl);
}

abbrev new_device : FdDevice ℕ
new_device = record { fd = pos 0; world = 0 }

-- tests

closes_fd :
    file_close broken (record new_device { fd = pos 5 })
    ≡ (negsuc 0, record { fd = pos 5; world = 1 })
unfolding file_close
closes_fd = refl

keeps_stdout :
    file_close broken (record new_device { fd = pos 1 }) ≡ (pos 0, record { fd = pos 1; world = 0 })
unfolding file_close
keeps_stdout = refl

closes_pipe :
    pipe_close broken (record new_device { fd = pos 5 })
    ≡ (negsuc 0, record { fd = pos 5; world = 2 })
unfolding pipe_close
closes_pipe = refl

starts_unopened :
    (file_backend_init broken true 0 ≡ initialised new_device)
    × (pipe_backend_init broken true 0 ≡ initialised new_device)
    × (pipe_backend_init broken false 0 ≡ refused enomem)
unfolding file_backend_init pipe_backend_init
starts_unopened = (refl, refl, refl)

broken_keeps_contract : BackendLaws (file_backend broken)
broken_keeps_contract = file_backend-BackendLaws broken broken-FilesLaws

-- witnesses

first_stream_closes_stdin_example :
    audio_set_stream_config
      (file_backend broken)
      (some (fresh_audio player_config new_device))
      (some stereo)
    ≡ (negsuc 0, some (fresh_audio player_config (record { fd = pos 0; world = 1 })))
unfolding file_backend_init
first_stream_closes_stdin_example =
    first_stream_closes_stdin broken player_config stereo 0 new_device refl refl

pipe_open_lem_example :
    let (code, made) = broken.make_fifo 0 fifo_filename in
    let path = if char_of (codes "out") == 0 then fifo_filename else codes "out" in
    let (ret, d') = pipe_open broken new_device (codes "out") audio_out 3072 stereo in
    ((is_negative ret ≡ true) ↔ (is_negative code ≡ true))
    × (is_negative code ≡ false → d'.fd ≡ (broken.open_path made path (pipe_mode audio_out)).0)
pipe_open_lem_example = pipe_open_lem broken new_device (codes "out") audio_out 3072 stereo
