-- ===== src/Devices/File.antt =====
-- src/common/backend/file_backend.c: audio to and from a file, or the standard output. Its functions
-- are called by the audio object only, which passes a device and a block that are not null.
pub mod Laws
use vban.Prelude.{ℕ, zero, suc, Bool, true, false, List, none, some, ◌==◌, if◌then◌else◌}
use vban.Prelude.Int.{ℤ, pos, negsuc, enomem}
use vban.Prelude.CString.{char_of}
use vban.Stream.{StreamConfig}
use vban.Audio.Interface.{Direction, audio_in, audio_out, Backend, InitResult, initialised, refused}
use vban.Devices.{Files, FdDevice, OpenMode, truncate_write, read_only}

-- `STDOUT_FILENO`
abbrev pub stdout_fileno : ℤ
stdout_fileno = pos 1

abbrev pub is_fd : ℤ → ℤ → Bool
is_fd (pos m) (pos n) = m == n
is_fd (negsuc m) (negsuc n) = m == n
is_fd (pos m) (negsuc n) = false
is_fd (negsuc m) (pos n) = false

-- `-errno`
abbrev pub minus : ℤ → ℤ
minus (pos zero) = pos zero
minus (pos (suc n)) = negsuc n
minus (negsuc n) = pos (suc n)

abbrev pub file_mode : Direction → OpenMode
file_mode audio_out = truncate_write
file_mode audio_in = read_only

module _ {World : Type 0} (files : Files World) where
  -- `file_backend_init`; the first argument says whether `calloc` gives memory.
  unfoldable pub file_backend_init : Bool → World → InitResult (FdDevice World)
  file_backend_init true w = initialised (record { fd = pos 0; world = w })
  file_backend_init false w = refused enomem

  pub file_open : FdDevice World → List ℕ → Direction → ℕ → StreamConfig → ℤ × FdDevice World
  file_open d output_name direction buffer_size config =
      if char_of output_name == 0
      then (pos 0, record d { fd = stdout_fileno })
      else let (fd, w) = files.open_path d.world output_name (file_mode direction) in
        if is_fd fd (negsuc 0)
        then (minus (files.errno w), record { fd = fd; world = w })
        else (pos 0, record { fd = fd; world = w })

  unfoldable pub file_close : FdDevice World → ℤ × FdDevice World
  file_close d =
      if is_fd d.fd stdout_fileno
      then (pos 0, d)
      else (let (ret, w) = files.close_fd d.world d.fd in (ret, record d { world = w }))

  pub file_write : FdDevice World → List ℕ → ℤ × FdDevice World
  file_write d data_in =
      let (ret, w) = files.write_fd d.world d.fd data_in in (ret, record d { world = w })

  pub file_read : FdDevice World → ℕ → ℤ × List ℕ × FdDevice World
  file_read d size =
      let (ret, bytes, w) = files.read_fd d.world d.fd size in (ret, bytes, record d { world = w })

  -- The functions that `file_backend_init` stores.
  abbrev pub file_backend : Backend (FdDevice World)
  file_backend = record {
    open_device = file_open;
    close_device = file_close;
    write_data = file_write;
    read_data = file_read;
  }
