-- ===== src/Recordmgr/AlsaHelper.antt =====
-- recordmgr/src/Util/AlsaHelper.cpp: the audio buffer and the WAV file made of it. A sample is the
-- 16-bit pattern of an `int16_t`, a byte a number below 256; the machine is little-endian.
pub mod RoundTrip
use raspberrypiservice.Prelude.{
  ℕ, zero, suc, ◌+◌, ◌*◌, ◌/◌, ◌%◌, ◌^◌, Bool, true, false, not, List, [], ◌∷◌, ◌++◌, Option, none,
  some, length, take, if◌then◌else◌,
}

-- `out.write` of a number's memory, before what is written after it.
abbrev pub write_u16 : ℕ → List ℕ → List ℕ
write_u16 n rest = n % 256 ∷ n / 256 % 256 ∷ rest

abbrev pub write_u32 : ℕ → List ℕ → List ℕ
write_u32 n rest = n % 256 ∷ n / 256 % 256 ∷ n / 65536 % 256 ∷ n / 16777216 % 256 ∷ rest

-- The buffer's memory.
sample_bytes : List ℕ → List ℕ
sample_bytes [] = []
sample_bytes (s ∷ ss) = s % 256 ∷ s / 256 % 256 ∷ sample_bytes ss

-- What `snd_pcm_readi` returns: `-EPIPE`, another error with the result of `snd_pcm_recover`, or
-- the frames that were read.
pub data ReadResult : Type 0 where
  overrun : ReadResult
  failed : (recovered : Bool) → ReadResult
  frames : List ℕ → ReadResult

-- `captureOnce` with an open handle: whether to go on, and the buffer.
unfoldable pub capture_once : ReadResult → List ℕ → Bool × List ℕ
capture_once overrun buffer = (true, buffer)
capture_once (failed recovered) buffer = (recovered, buffer)
capture_once (frames fs) buffer = (true, buffer ++ fs)

abbrev pub is_audio_buffer_empty : List ℕ → Bool
is_audio_buffer_empty [] = true
is_audio_buffer_empty (s ∷ ss) = false

-- `subchunk2Size`, `chunkSize` and `byteRate`, of type `uint32_t`.
subchunk2_size : List ℕ → ℕ
subchunk2_size buffer = length buffer * 2 % 2 ^ 32

-- What is written from the "data" tag on, and before it.
data_chunk : (size : ℕ) → List ℕ → List ℕ
data_chunk size bytes = 100 ∷ 97 ∷ 116 ∷ 97 ∷ write_u32 size bytes

format_chunk : (rate : ℕ) → List ℕ → List ℕ
format_chunk rate rest =
    let byte_rate = rate * 1 * 2 % 2 ^ 32 in
    let block_align = 1 * 2 in
    let fields = write_u32 rate (write_u32 byte_rate (write_u16 block_align (write_u16 16 rest))) in
    102 ∷ 109 ∷ 116 ∷ 32 ∷ write_u32 16 (write_u16 1 (write_u16 1 fields))

wav_bytes : (rate size : ℕ) → List ℕ → List ℕ
unfolding data_chunk format_chunk
wav_bytes rate size bytes =
    let chunk_size = (36 + size) % 2 ^ 32 in
    82
    ∷ 73
    ∷ 70
    ∷ 70
    ∷ write_u32 chunk_size (87 ∷ 65 ∷ 86 ∷ 69 ∷ format_chunk rate (data_chunk size bytes))

-- `saveWavFile`: the bytes of the file, or none if there is no audio or the file does not open.
pub save_wav_file : (opens : Bool) (rate : ℕ) → List ℕ → Option (List ℕ)
unfolding wav_bytes sample_bytes subchunk2_size
save_wav_file opens rate buffer =
    if is_audio_buffer_empty buffer
    then none
    else if not opens
    then none
    else some (
        wav_bytes rate (subchunk2_size buffer) (take (subchunk2_size buffer) (sample_bytes buffer)))
