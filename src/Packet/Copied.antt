-- ===== src/Packet/Copied.antt =====
-- Packets that were copied to the front of another buffer, as datagrams are.
use vban.Prelude.{ℕ, ◌≤◌, ◌≡◌, List, some, length}
use vban.Prelude.Memory.{slice, splice}
use vban.Stream.{StreamConfig}
use vban.Vban.Header.Copied.{read_header-copied}
use vban.Packet.{packet_check, packet_get_stream_config}

module _ (m dest : List ℕ) (k : ℕ) (fits : k ≤ length m) (room : k ≤ length dest) (h : 28 ≤ k) where
  pub packet_check-copied :
      (name : List ℕ) (size : ℕ)
      → packet_check (some name) (some (splice dest 0 (slice m 0 k))) size
        ≡ packet_check (some name) (some m) size
  unfolding packet_check
  packet_check-copied name size = rw (read_header-copied m dest k fits room h)

  pub get_config-copied :
      (old : StreamConfig)
      → packet_get_stream_config (some (splice dest 0 (slice m 0 k))) (some old)
        ≡ packet_get_stream_config (some m) (some old)
  unfolding packet_get_stream_config
  get_config-copied old = rw (read_header-copied m dest k fits room h)
