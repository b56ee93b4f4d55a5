-- ===== src/Lib.antt =====
-- Verification library of the vban tools: the C programs that send audio over UDP in packets of the VBAN
-- protocol (vban_emitter), play the packets of one stream (vban_receptor) and send a text (vban_sendtext).
--
-- The program's parts, and the files that model them:
--
-- - Prelude: numbers, lists, bit masks, C strings, blocks of memory (`memcpy` and `memset` on lists of
--   bytes), the `int` of return codes and its conversions, faults as `none`, and in Prelude/Scan the
--   `atoi`, `sscanf` and `strtok` of the C library as the program calls them.
-- - Vban, Vban/Header: src/vban/vban.h, its constants and tables, and `struct VBanHeader` as the 28 bytes
--   of a little-endian machine; `read_header` and `write_header` are the accesses through
--   `PACKET_HEADER_PTR` of src/common/packet.h.
-- - Stream: src/common/stream.c and stream.h (`stream_parse_bit_fmt`, `stream_print_bit_fmt`,
--   `struct stream_config_t`).
-- - Packet: src/common/packet.c, function by function under the same names. Packet/Check, Config, Payload,
--   Prepared, Emit, Content, Datagrams and Copied hold the proofs.
-- - Audio: src/common/audio.c and audio.h. Audio/Interface is `struct audio_backend_t` and
--   src/common/backend/audio_backend.c, with its list of backends and its help text in
--   Audio/Interface/Help; Audio/Channels is `audio_map_channels`; Audio/Parse is
--   `audio_parse_map_config`; Audio/Streams, Sizes, Writing, Overrun, Reading
--   and Capture hold the proofs on the others.
-- - Socket: src/common/socket.c and socket.h (`socket_init`, `socket_open`, `socket_close`,
--   `socket_read`, `socket_write`, `socket_release`), over an interface `Net` of system calls.
--   Socket/Descriptors adds the table of descriptors.
-- - Devices: the backends of src/common/backend. Devices/File and Devices/Pipe are file_backend.c and
--   pipe_backend.c, over an interface `Files` of system calls; they fill the interface `Backend` that the
--   audio object is written against. Devices/Alsa, Devices/Pulseaudio and Devices/Jack are alsa_backend.c,
--   pulseaudio_backend.c and jack_backend.c, over an interface of the sound system's calls each.
--   Devices/Jack/Process is the loop of `jack_process_cb`, and Devices/Jack/Convert `jack_convert_sample`.
-- - Logger: src/common/logger.c. Its calls are left out of the other parts.
-- - Options: the loop over the results of `getopt_long` that the three tools share.
-- - Receptor: src/receptor/main.c, `computeSize` and `main` from the parsed options on. Receptor/Options is
--   its `get_options`, and the whole `main`; Receptor/Loop is about its loop as a whole, and
--   Receptor/Mapped about a packet under a channel map, Receptor/OneChannel about the loop under a map
--   of one channel.
-- - Emitter: src/emitter/main.c in the same way, with Emitter/Options and Emitter/Loop;
--   Emitter/Capture is about its first read under a channel map.
-- - Sendtext: src/sendtext/main.c in the same way, with Sendtext/Options.
-- - Session: the emitter and the receptor together. Session/Sending and Session/Playing are
--   about the two loops, Session/Mixed about packets of other streams, Session/Delivery about what
--   arrives, Session/Run about whole runs, and Session/Stopping about the end of the receptor's. The datagrams of a stream are those of
--   Packet/Datagrams: a header and a block of audio, the frame number one more than before.
-- - Samples, and a module Tests in each part: concrete runs, among them whole runs of both programs.
--
-- How they interact: the emitter prepares the header of its buffer, then repeats `audio_read`,
-- `packet_set_new_content`, `packet_check` and `socket_write`. The receptor repeats `socket_read`,
-- `packet_check`, `packet_get_stream_config`, `audio_set_stream_config` and `audio_write`. The audio object
-- maps channels and calls a backend. Emitter/Laws is also about what a receiver of the emitter's
-- datagrams finds in them.
--
-- Conventions. A pointer that may be null is an `Option`; the outer `Option` of a result is `none` where
-- the code's behaviour is undefined: an access outside a block, a null pointer that is followed, a
-- division by zero. A function returns its code, the objects it changes, and the state of the system.
-- Unsigned arithmetic wraps where it is written out, with 64 bits for `size_t` and 32 for `int` and
-- `unsigned int`. An `int` is a `ℤ` of the library's own. The answer of `calloc` is a Boolean argument.
-- Log output is left out.
--
-- Fuel. `socket_read` repeats `recvfrom` for as long as datagrams of other addresses arrive, which nothing
-- bounds; its rounds are fuel, and one more than the number of such datagrams is enough. The loops of the
-- two programs are followed for a number of rounds, which is an argument. Only a round that stops leaves
-- such a loop and leads to the releases and the exit code: no signal clears `MainRun`, since
-- `signalHandler` is never installed, and after the last round the program still runs (`Progress`). All
-- other loops are structural.
--
-- The command line. What the calls of `getopt_long` return, a character and `optarg`, is a list, and the
-- arguments behind the options are another. `atoi` and `sscanf` fault where the C standard leaves the
-- result undefined, on a number that does not fit.
--
-- Outside the model: the usage texts, the release of JACK's ring buffer, and the variants for Windows. System
-- calls, sound systems, JACK's ring buffer and the arithmetic of `float` are interfaces; where a theorem
-- needs a property of them, it is a field of `BackendLaws`, `FilesLaws`, `DescriptorLaws` or `RingbufferLaws`, or a
-- hypothesis.
pub mod Prelude
pub mod Vban
pub mod Stream
pub mod Packet
pub mod Audio
pub mod Socket
pub mod Devices
pub mod Samples
pub mod Logger
pub mod Options
pub mod Sendtext
pub mod Receptor
pub mod Session
pub mod Emitter
