-- ===== src/Devices/Jack/Tests.antt =====
-- The JACK backend on a concrete server and ring buffer.
use vban.Prelude.{
  ℕ, zero, suc, ◌+◌, ◌≡◌, refl, ap, arith, true, false, List, [], ◌∷◌, ◌++◌, Option, some, none,
  length, take, drop,
}
use vban.Prelude.Int.{ℤ, pos, negsuc}
use vban.Prelude.Memory.{read_block}
use vban.Audio.Interface.{audio_out, initialised}
use vban.Devices.Jack.{
  Jack, JackDevice, jack_backend_init, jack_close, close_client, jack_start, start_ports,
  register_ports, connect_ports, jack_open, open_client, open_opened, open_with, no_ports,
  read_zeros, set_port, jack_write, write_ring, jack_shutdown_cb, jack_process_cb,
}
use vban.Devices.Jack.Process.{
  Ringbuffer, RingbufferLaws, process, frame_loop, channel_loop, read_sample, read_here, read_parts,
}
use vban.Devices.Jack.Process.Equivalence.{expected, process_lem}
use vban.Devices.Jack.Convert.{Floats, jack_convert_sample, sample_bytes, convert_lem}
use vban.Devices.Jack.Laws.{IsSound, closed, Succeeds, operations-IsSound}
use vban.Samples.{stereo, frames}

take-append-drop : (n : ℕ) (xs : List ℕ) → take n xs ++ drop n xs ≡ xs
take-append-drop zero xs = refl
take-append-drop (suc n) [] = refl
take-append-drop (suc n) (x ∷ xs) = ap (λ l. x ∷ l) (take-append-drop n xs)

-- A ring buffer whose first segment ends behind three bytes, in the middle of a sample.
abbrev cut : Ringbuffer (List ℕ)
cut = record {
  create = λ n. some [];
  write_space = λ r. 64;
  write = λ r bytes. r ++ bytes;
  get_read_vector = λ r. (take 3 r, drop 3 r);
  read_advance = λ r n. drop n r;
}

cut-RingbufferLaws : RingbufferLaws cut
cut-RingbufferLaws = record {
  contents = λ r. r;
  contents-vector = λ r. take-append-drop 3 r;
  contents-write = λ r bytes h. refl;
  contents-advance = λ r n h. refl;
}

-- A server that counts the calls that change it, with two ports to play to.
abbrev server : Jack ℕ ℕ ℕ ℕ
server = record {
  client_open = λ w name. (some 4, w + 1);
  get_buffer_size = λ w client. 2;
  set_process_callback = λ w client. (pos 0, w + 1);
  on_shutdown = λ w client. w + 1;
  activate = λ w client. (pos 0, w + 1);
  deactivate = λ w client. (pos 0, w + 1);
  client_close = λ w client. (pos 0, w + 1);
  port_register = λ w client n. (some n, w + 1);
  get_ports = λ w client. some (8 ∷ 9 ∷ []);
  connect = λ w client port target. (pos 0, w + 1);
  calloc = λ w n. true;
}

abbrev unopened : JackDevice ℕ ℕ ℕ (List ℕ)
unopened = record {
  client = none;
  ports = no_ports;
  ring = none;
  bit_fmt = 0;
  nb_channels = 0;
  active = false;
  world = 0;
}

-- A device between two periods, with nine bytes waiting.
abbrev playing : JackDevice ℕ ℕ ℕ (List ℕ)
playing = record unopened {
  client = some 4;
  ring = some (99 ∷ frames);
  bit_fmt = 1;
  nb_channels = 2;
  active = true;
}

init_closed : jack_backend_init server cut true 0 ≡ initialised unopened
unfolding jack_backend_init
init_closed = refl

-- The code of a call, the number of calls of the server, and whether the device has a client.
abbrev outcome : Option (ℤ × JackDevice ℕ ℕ ℕ (List ℕ)) → Option (ℤ × ℕ × Option ℕ)
outcome none = none
outcome (some (ret, d)) = some (ret, d.world, d.client)

opens_and_connects :
    outcome (jack_open server cut unopened [] audio_out 8 stereo) ≡ some (pos 0, 8, some 4)
unfolding jack_open open_client open_opened open_with read_zeros set_port jack_start start_ports
    register_ports connect_ports
opens_and_connects = refl

-- A period of two frames: the second sample lies on both sides of the border.
period :
    process cut (λ bytes. bytes) 2 2 2 frames
    ≡ some (
      (0, 0, 11 ∷ 12 ∷ [])
          ∷ (1, 0, 21 ∷ 22 ∷ [])
          ∷ (0, 1, 13 ∷ 14 ∷ [])
          ∷ (1, 1, 23 ∷ 24 ∷ [])
          ∷ [],
      [],
    )
unfolding process frame_loop channel_loop read_sample read_here read_parts read_block
period = refl

plays_period :
    jack_process_cb server cut (λ (bytes : List ℕ). length bytes) playing 1
    ≡ some ((0, 0, 2) ∷ (1, 0, 2) ∷ [], record playing { ring = some (drop 4 (99 ∷ frames)) })
unfolding jack_process_cb process frame_loop channel_loop read_sample read_here read_parts
    read_block
plays_period = refl

writes_whole :
    jack_write server cut playing (1 ∷ 2 ∷ [])
    ≡ some (pos 2, record playing { ring = some (99 ∷ (frames ++ 1 ∷ 2 ∷ [])) })
unfolding jack_write write_ring
writes_whole = refl

shuts_down : (jack_shutdown_cb server cut playing).client ≡ none
unfolding jack_shutdown_cb jack_close close_client
shuts_down = refl

-- witnesses

process_lem_example :
    let (stores, taken) = expected (λ (bytes : List ℕ). bytes) 2 2 2 (99 ∷ frames) in
    (ring' : List ℕ) × (process cut (λ (bytes : List ℕ). bytes) 2 2 2 (99 ∷ frames)
      ≡ some (stores, ring'))
    × (ring' ≡ drop taken (99 ∷ frames))
unfolding cut-RingbufferLaws
process_lem_example =
    process_lem cut cut-RingbufferLaws (λ (bytes : List ℕ). bytes) 2 2 2 (99 ∷ frames) (omega arith)
      (omega arith) (omega arith)

-- Numbers in place of `float`: the two sides of the division.
abbrev ratios : Floats (List ℤ)
ratios = record { of_int = λ z. z ∷ []; divide = λ a b. a ++ b; of_bytes = λ bytes. []; null = [] }

convert_lem_example :
    jack_convert_sample ratios 3 (sample_bytes 32 (negsuc 4)) ≡ negsuc 4 ∷ negsuc 2147483647 ∷ []
convert_lem_example = convert_lem ratios 3 (negsuc 4) (omega arith) (omega arith)

operations-IsSound_example :
    Succeeds server cut (jack_open server cut unopened [] audio_out 8 stereo)
    × IsSound server cut (jack_close server cut unopened).1
    × Succeeds server cut (jack_write server cut unopened frames)
operations-IsSound_example =
    operations-IsSound server cut unopened [] audio_out 8 stereo frames (λ n. ([], refl))
      (λ w n. refl) (omega arith) (omega arith) (closed refl refl)
