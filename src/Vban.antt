-- ===== src/Vban.antt =====
-- The constants and tables of src/vban/vban.h, and the packet header.
pub mod Header
use vban.Prelude.{ℕ, ◌-◌, ◌==◌, if◌then◌else◌, List, [], ◌∷◌, Option, none, some}

-- `VBAN_HEADER_SIZE`, also `sizeof(struct VBanHeader)`
abbrev pub header_size : ℕ
header_size = 28

abbrev pub stream_name_size : ℕ
stream_name_size = 16

-- `VBAN_PROTOCOL_MAX_SIZE`
abbrev pub protocol_max_size : ℕ
protocol_max_size = 1464

-- `VBAN_DATA_MAX_SIZE`
abbrev pub data_max_size : ℕ
data_max_size = protocol_max_size - header_size

abbrev pub samples_max_nb : ℕ
samples_max_nb = 256

-- `VBAN_HEADER_FOURC`: the character constant 'NABV' as the usual compilers read it.
abbrev pub header_fourc : ℕ
header_fourc = 0x4e414256

-- `VBanSRList`
abbrev pub sr_list : List ℕ
sr_list =
    6000 ∷ 12000 ∷ 24000 ∷ 48000 ∷ 96000 ∷ 192000 ∷ 384000 ∷ 8000 ∷ 16000 ∷ 32000 ∷ 64000 ∷ 128000
    ∷ 256000 ∷ 512000 ∷ 11025 ∷ 22050 ∷ 44100 ∷ 88200 ∷ 176400 ∷ 352800 ∷ 705600 ∷ []

abbrev pub sr_maxnumber : ℕ
sr_maxnumber = 21

-- `enum VBanProtocol`
pub data Protocol : Type 0 where
  audio serial txt undefined_1 undefined_2 undefined_3 undefined_4 : Protocol

-- The enumerator with a value; 0x60 has none.
abbrev pub protocol_of : ℕ → Option Protocol
protocol_of n =
    if n == 0x00
    then some audio
    else if n == 0x20
    then some serial
    else if n == 0x40
    then some txt
    else if n == 0x80
    then some undefined_1
    else if n == 0xa0
    then some undefined_2
    else if n == 0xc0
    then some undefined_3
    else if n == 0xe0
    then some undefined_4
    else none

-- `VBAN_BIT_RESOLUTION_MAX`; a value of `enum VBanBitResolution` is a number below it.
abbrev pub bit_resolution_max : ℕ
bit_resolution_max = 8

-- `VBanBitResolutionSize`: the entries that the initialiser leaves out are 0.
abbrev pub bit_resolution_size : List ℕ
bit_resolution_size = 1 ∷ 2 ∷ 3 ∷ 4 ∷ 4 ∷ 8 ∷ 0 ∷ 0 ∷ []

abbrev pub codec_pcm : ℕ
codec_pcm = 0x00

-- `VBAN_PROTOCOL_TXT`
abbrev pub protocol_txt : ℕ
protocol_txt = 0x40
