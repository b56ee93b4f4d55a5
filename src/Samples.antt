-- ===== src/Samples.antt =====
-- Concrete values for the tests of all components: a stream and a packet of it, a backend that keeps
-- what is written to it, and a network with a queue of datagrams.
use vban.Prelude.{
  ℕ, ◌≡◌, refl, arith, Bool, List, [], ◌∷◌, ◌++◌, true, false, length, replicate, length-replicate,
  ltb, ◌&&◌, if◌then◌else◌,
}
use vban.Prelude.Int.{pos, negsuc, is_negative}
use vban.Prelude.Memory.{IsBytes}
use vban.Prelude.CString.{codes, strncmp_eq}
use vban.Vban.Header.{read_header}
use vban.Packet.Config.{IsCarried}
use vban.Packet.Prepared.{IsPrepared}
use vban.Stream.{StreamConfig}
use vban.Packet.{no_config}
use vban.Audio.{AudioConfig, Audio, no_map}
use vban.Audio.Interface.{Direction, audio_out, Backend, BackendLaws}
use vban.Audio.Channels.{MapConfig}
use vban.Socket.{Net, Received, failed, datagram, Socket, socket_in}

abbrev all_bytes : List ℕ → Bool
all_bytes [] = true
all_bytes (x ∷ m) = ltb x 256 && all_bytes m

-- A list of bytes is checked by computing.
pub all_bytes_sound : (m : List ℕ) → all_bytes m ≡ true → IsBytes m
all_bytes_sound [] h i = omega arith
all_bytes_sound (x ∷ m) h ℕ.zero = ground arith
all_bytes_sound (x ∷ m) h (ℕ.suc i) = all_bytes_sound m (ground arith) i

abbrev pub stream_name : List ℕ
stream_name = codes "Stream1"

-- Two channels of 16 bits at 48 kHz.
abbrev pub stereo : StreamConfig
stereo = record { nb_channels = 2; sample_rate = 48000; bit_fmt = 1 }

pub stereo-IsCarried : IsCarried stereo
stereo-IsCarried = record {
  some_channel = omega arith;
  channels = omega arith;
  rate_index = 3;
  rate = refl;
  format = omega arith;
}

-- Two frames.
abbrev pub frames : List ℕ
frames = 11 ∷ 12 ∷ 21 ∷ 22 ∷ 13 ∷ 14 ∷ 23 ∷ 24 ∷ []

abbrev pub packet : List ℕ
packet =
    b'V'
    ∷ b'B'
    ∷ b'A'
    ∷ b'N'
    ∷ 3
    ∷ 1
    ∷ 1
    ∷ 1
    ∷ (stream_name ++ (replicate 9 0 ++ (5 ∷ 0 ∷ 0 ∷ 0 ∷ frames)))

pub packet-IsBytes : IsBytes packet
packet-IsBytes = all_bytes_sound packet refl

pub packet-IsPrepared : IsPrepared stream_name stereo packet
unfolding read_header strncmp_eq
packet-IsPrepared = record {
  bytes = packet-IsBytes;
  room = omega arith;
  announces = record {
    magic = refl;
    same_name = refl;
    rate_fits = omega arith;
    rate = refl;
    channels = refl;
    format = refl;
    has_size = omega arith;
  };
}

-- A device that keeps what is written to it, and the parameters it was opened for.
pub record Recorder : Type 0 where
  pub written : List (List ℕ)
  pub opened : StreamConfig

abbrev pub recorder : Backend Recorder
recorder = record {
  open_device = λ d name direction size c. (pos 0, record d { opened = c });
  close_device = λ d. (pos 0, d);
  write_data = λ d bytes. (
    if ltb (length bytes) 4096 then pos (length bytes) else negsuc 4,
    record d { written = bytes ∷ d.written },
  );
  read_data = λ d n. if ltb n 4096 then (pos n, replicate n 7, d) else (negsuc 4, [], d);
}

abbrev pub IsOpened : Recorder → StreamConfig → Type 0
IsOpened d c = d.opened ≡ c

pub recorder_opens :
    (d : Recorder) (name : List ℕ) (dir : Direction) (size : ℕ) (c : StreamConfig)
    → is_negative (recorder.open_device d name dir size c).0 ≡ false
    → IsOpened (recorder.open_device d name dir size c).1 c
recorder_opens d name dir size c h = refl

pub recorder-BackendLaws : BackendLaws recorder
recorder-BackendLaws = record {
  write_int = λ d bytes. ground arith;
  read_int = λ d n. ground arith;
  read_fits = λ d n. ground (arith, length-replicate {A = ℕ} n 7);
  read_count = λ d n k e. ground (arith, e, length-replicate {A = ℕ} n 7);
}

abbrev pub idle : Recorder
idle = record { written = []; opened = no_config }

abbrev pub player_config : AudioConfig
player_config = record {
  direction = audio_out;
  backend_name = [];
  device_name = [];
  buffer_size = 3072;
}

-- An audio object that has no stream yet, one that is open for `stereo`, and one with its channels swapped.
abbrev pub new_player : Audio Recorder
new_player = record {
  config = player_config;
  stream = no_config;
  map = no_map;
  device = idle;
  buffer = replicate 1436 0;
}

abbrev pub player : Audio Recorder
player = record {
  config = player_config;
  stream = stereo;
  map = no_map;
  device = record { written = []; opened = stereo };
  buffer = replicate 1436 0;
}

abbrev pub swap : MapConfig
swap = record { channels = 1 ∷ 0 ∷ replicate 254 0; nb_channels = 2 }

abbrev pub swapped_player : Audio Recorder
swapped_player = record player { map = swap }

-- The datagrams that wait, and those that were sent.
pub record Queue : Type 0 where
  pub inbox : List Received
  pub outbox : List (List ℕ)

abbrev pop : List Received → Received
pop [] = failed 4
pop (event ∷ events) = event

abbrev rest : List Received → List Received
rest [] = []
rest (event ∷ events) = events

abbrev pub wire : Net Queue
wire = record {
  create = λ w. (pos 3, w);
  bind_port = λ w fd port. (pos 0, w);
  set_broadcast = λ w fd. (pos 0, w);
  close_fd = λ w fd. (pos 0, w);
  errno = λ w. pos 98;
  receive = λ w fd size. (pop w.inbox, record w { inbox = rest w.inbox });
  send = λ w fd ip port bytes. (pos (length bytes), record w { outbox = bytes ∷ w.outbox });
}

abbrev pub peer : List ℕ
peer = codes "10.0.0.7"

abbrev pub other : List ℕ
other = codes "10.0.0.9"

abbrev pub receiving : Socket
receiving = record {
  config = record { direction = socket_in; ip_address = peer; port = pos 6980 };
  fd = 3;
}

abbrev pub empty : Queue
empty = record { inbox = []; outbox = [] }

-- A datagram of another address, then one of the peer.
abbrev pub two_waiting : Queue
two_waiting = record {
  inbox = datagram other (1 ∷ 2 ∷ []) ∷ datagram peer packet ∷ [];
  outbox = [];
}
