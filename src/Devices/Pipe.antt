-- ===== src/Devices/Pipe.antt =====
-- src/common/backend/pipe_backend.c in the variant for POSIX systems: audio to and from a named pipe
-- that the backend makes. Its functions are called by the audio object only, which passes a device
-- and a block that are not null.
pub mod Laws
use vban.Prelude.{ℕ, Bool, true, false, List, ◌==◌, if◌then◌else◌}
use vban.Prelude.Int.{ℤ, pos, negsuc, is_negative, enomem}
use vban.Prelude.CString.{char_of, codes}
use vban.Stream.{StreamConfig}
use vban.Audio.Interface.{Direction, audio_in, audio_out, Backend, InitResult, initialised, refused}
use vban.Devices.{Files, FdDevice, OpenMode, write_only, read_only}
use vban.Devices.File.{is_fd}

-- `FIFO_FILENAME`
abbrev pub fifo_filename : List ℕ
fifo_filename = codes "/tmp/vban_0"

abbrev pub pipe_mode : Direction → OpenMode
pipe_mode audio_out = write_only
pipe_mode audio_in = read_only

module _ {World : Type 0} (files : Files World) where
  -- `pipe_backend_init`; the first argument says whether `calloc` gives memory.
  unfoldable pub pipe_backend_init : Bool → World → InitResult (FdDevice World)
  pipe_backend_init true w = initialised (record { fd = pos 0; world = w })
  pipe_backend_init false w = refused enomem

  -- A path that cannot be opened is reported with the code of `mkfifo`.
  pub pipe_open : FdDevice World → List ℕ → Direction → ℕ → StreamConfig → ℤ × FdDevice World
  pipe_open d output_name direction buffer_size config =
      let (ret, made) = files.make_fifo d.world fifo_filename in
      let path = if char_of output_name == 0 then fifo_filename else output_name in
      let (fd, w) = files.open_path made path (pipe_mode direction) in
      if is_negative ret
      then (ret, record { fd = pos 0; world = made })
      else if is_fd fd (negsuc 0)
      then (ret, record { fd = fd; world = w })
      else (pos 0, record { fd = fd; world = w })

  unfoldable pub pipe_close : FdDevice World → ℤ × FdDevice World
  pipe_close d =
      let (ret, w) = files.close_fd d.world d.fd in
      (ret, record d { world = files.unlink w fifo_filename })

  pub pipe_write : FdDevice World → List ℕ → ℤ × FdDevice World
  pipe_write d data_in =
      let (ret, w) = files.write_fd d.world d.fd data_in in (ret, record d { world = w })

  pub pipe_read : FdDevice World → ℕ → ℤ × List ℕ × FdDevice World
  pipe_read d size =
      let (ret, bytes, w) = files.read_fd d.world d.fd size in (ret, bytes, record d { world = w })

  -- The functions that `pipe_backend_init` stores.
  abbrev pub pipe_backend : Backend (FdDevice World)
  pipe_backend = record {
    open_device = pipe_open;
    close_device = pipe_close;
    write_data = pipe_write;
    read_data = pipe_read;
  }
