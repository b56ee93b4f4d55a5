-- ===== src/Devices/Pulseaudio/Laws.antt =====
-- The PulseAudio device under the audio object, when the server refuses the stream.
use vban.Audio.{Audio}
