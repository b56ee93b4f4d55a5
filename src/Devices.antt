-- ===== src/Devices.antt =====
-- The backends of src/common/backend, and for those that stand on file descriptors the system calls they
-- make, as an interface over the state of the system.
pub mod File
pub mod Pipe
pub mod Jack
pub mod Alsa
pub mod Pulseaudio
mod Tests
use vban.Prelude.{ℕ, ◌≤◌, ◌≡◌, List, length}
use vban.Prelude.Int.{ℤ, pos, negsuc, IsInt}

-- The two ways in which the backends open a path.
pub data OpenMode : Type 0 where
  truncate_write write_only read_only : OpenMode

-- The system calls. A descriptor is an `int`; `read` returns the bytes that it stores.
pub record Files (World : Type 0) : Type 0 where
  pub open_path : World → List ℕ → OpenMode → ℤ × World
  pub close_fd : World → ℤ → ℤ × World
  pub write_fd : World → ℤ → List ℕ → ℤ × World
  pub read_fd : World → ℤ → ℕ → ℤ × List ℕ × World
  pub make_fifo : World → List ℕ → ℤ × World
  pub unlink : World → List ℕ → World
  pub errno : World → ℤ

-- What POSIX says of them: `write` and `read` return an `int` here, as no block of the program is
-- larger; `read` stores as many bytes as it says, and not more than asked for; `errno` is an `int`
-- above 0 after an `open` that returned -1.
pub record FilesLaws {World : Type 0} (files : Files World) : Type 0 where
  pub write_int : (w : World) (fd : ℤ) (bytes : List ℕ) → IsInt (files.write_fd w fd bytes).0
  pub read_int : (w : World) (fd : ℤ) (n : ℕ) → IsInt (files.read_fd w fd n).0
  pub read_fits : (w : World) (fd : ℤ) (n : ℕ) → length (files.read_fd w fd n).1 ≤ n
  pub read_count :
      (w : World) (fd : ℤ) (n k : ℕ)
      → (files.read_fd w fd n).0 ≡ pos k
      → length (files.read_fd w fd n).1 ≡ k
  pub open_errno :
      (w : World) (path : List ℕ) (mode : OpenMode)
      → (files.open_path w path mode).0 ≡ negsuc 0
      → (k : ℕ) × (files.errno (files.open_path w path mode).1 ≡ pos (ℕ.suc k))

-- `struct file_backend_t` and `struct pipe_backend_t`, with the state of the system they act on.
pub record FdDevice (World : Type 0) : Type 0 where
  pub fd : ℤ
  pub world : World
