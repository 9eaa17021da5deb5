-- ===== src/Recordmgr/AlsaHelper/RoundTrip.antt =====
-- The WAV file read back by the format's description.
use raspberrypiservice.Prelude.{
  ℕ, zero, suc, ◌+◌, ◌*◌, ◌/◌, ◌%◌, ◌^◌, ◌<◌, ◌≤◌, ◌≡◌, refl, ap, Bool, true, ◌&&◌, List, [], ◌∷◌,
  Option, none, some, length, take, drop, All, ◌==◌, if◌then◌else◌, arith, ◌∙◌, sym,
}
use mathlib.Core.Path.{ap₂}
use raspberrypiservice.Recordmgr.AlsaHelper.{
  sample_bytes, subchunk2_size, wav_bytes, format_chunk, data_chunk, save_wav_file,
}

abbrev byte_at : ℕ → List ℕ → ℕ
byte_at i [] = 0
byte_at zero (b ∷ bs) = b
byte_at (suc i) (b ∷ bs) = byte_at i bs

abbrev u16_at : ℕ → List ℕ → ℕ
u16_at i bs = byte_at i bs + 256 * byte_at (suc i) bs

abbrev u32_at : ℕ → List ℕ → ℕ
u32_at i bs = u16_at i bs + 65536 * u16_at (suc (suc i)) bs

abbrev tag_at : ℕ → ℕ → ℕ → ℕ → ℕ → List ℕ → Bool
tag_at i a b c d bs =
    byte_at i bs == a
    && byte_at (suc i) bs == b
    && byte_at (suc (suc i)) bs == c
    && byte_at (suc (suc (suc i))) bs == d

abbrev pairs : List ℕ → List ℕ
pairs [] = []
pairs (lo ∷ []) = []
pairs (lo ∷ hi ∷ rest) = (lo + 256 * hi) ∷ pairs rest

-- The fields of a canonical WAV file: "RIFF", size, "WAVE", "fmt ", 16, and so on, and "data" with
-- its size and samples.
pub record Wav : Type 0 where
  pub chunk_size : ℕ
  pub audio_format : ℕ
  pub num_channels : ℕ
  pub sample_rate : ℕ
  pub byte_rate : ℕ
  pub block_align : ℕ
  pub bits_per_sample : ℕ
  pub data_size : ℕ
  pub samples : List ℕ

abbrev pub read_wav : List ℕ → Option Wav
read_wav bs =
    if tag_at 0 82 73 70 70 bs
      && tag_at 8 87 65 86 69 bs
      && tag_at 12 102 109 116 32 bs
      && u32_at 16 bs == 16
      && tag_at 36 100 97 116 97 bs
    then some (record {
      chunk_size = u32_at 4 bs;
      audio_format = u16_at 20 bs;
      num_channels = u16_at 22 bs;
      sample_rate = u32_at 24 bs;
      byte_rate = u32_at 28 bs;
      block_align = u16_at 32 bs;
      bits_per_sample = u16_at 34 bs;
      data_size = u32_at 40 bs;
      samples = pairs (take (u32_at 40 bs) (drop 44 bs));
    })
    else none

abbrev pub reload : Option (List ℕ) → Option Wav
reload none = none
reload (some bs) = read_wav bs

length-sample_bytes : (ss : List ℕ) → length (sample_bytes ss) ≡ length ss * 2
unfolding sample_bytes
length-sample_bytes [] = refl
length-sample_bytes (s ∷ ss) = omega (arith, length-sample_bytes ss)

take-all : (n : ℕ) (bs : List ℕ) → length bs ≤ n → take n bs ≡ bs
take-all zero [] h = refl
take-all zero (b ∷ bs) h = absurd (omega arith)
take-all (suc n) [] h = refl
take-all (suc n) (b ∷ bs) h = ap (◌∷◌ b) (take-all n bs (omega arith))

pairs-sample_bytes : (ss : List ℕ) → All (λ s. s < 65536) ss → pairs (sample_bytes ss) ≡ ss
unfolding sample_bytes
pairs-sample_bytes [] h = refl
pairs-sample_bytes (s ∷ ss) h =
    let value : s % 256 + 256 * (s / 256 % 256) ≡ s = omega arith in
    ap₂ ◌∷◌ value (pairs-sample_bytes ss h.1)

u32_value :
    (n : ℕ)
    → n < 2 ^ 32
    → n % 256 + 256 * (n / 256 % 256) + 65536 * (n / 65536 % 256 + 256 * (n / 16777216 % 256)) ≡ n
u32_value n h = omega arith

pairs-take-sample_bytes :
    (n : ℕ) (ss : List ℕ)
    → length ss * 2 ≡ n
    → All (λ s. s < 65536) ss
    → pairs (take n (sample_bytes ss)) ≡ ss
pairs-take-sample_bytes n ss h small =
    ap pairs (take-all n (sample_bytes ss) (omega (arith, h, length-sample_bytes ss)))
    ∙ pairs-sample_bytes ss small

-- A PCM file of one channel and 16 bits per sample.
abbrev pub wav : (chunk_size rate byte_rate data_size : ℕ) → List ℕ → Wav
wav chunk_size rate byte_rate data_size ss = record {
  chunk_size = chunk_size;
  audio_format = 1;
  num_channels = 1;
  sample_rate = rate;
  byte_rate = byte_rate;
  block_align = 2;
  bits_per_sample = 16;
  data_size = data_size;
  samples = ss;
}

wav_cong :
    {c c' r r' b b' d d' : ℕ} {ss ss' : List ℕ}
    → c ≡ c'
    → r ≡ r'
    → b ≡ b'
    → d ≡ d'
    → ss ≡ ss'
    → some (wav c r b d ss) ≡ some (wav c' r' b' d' ss')
wav_cong p q r s t = λ i. some (wav (p i) (q i) (r i) (s i) (t i))

size_value :
    (buffer : List ℕ) → 36 + length buffer * 2 < 2 ^ 32 → subchunk2_size buffer ≡ length buffer * 2
unfolding subchunk2_size
size_value buffer h = omega (arith, h)

-- The samples that are left when the data's size is read back.
read_samples :
    (n m : ℕ) (ss : List ℕ)
    → length ss * 2 ≡ n
    → n ≡ m
    → All (λ s. s < 65536) ss
    → pairs (take m (take n (sample_bytes ss))) ≡ ss
read_samples n m ss h e small =
    let all = take-all n (sample_bytes ss) (omega (arith, h, length-sample_bytes ss)) in
    ap (λ bs. pairs (take m bs)) all ∙ pairs-take-sample_bytes m ss (h ∙ e) small

-- A nonempty buffer is saved if the file opens.
pub save_wav_file-some :
    (rate s : ℕ) (ss : List ℕ) → (bytes : List ℕ) × (save_wav_file true rate (s ∷ ss) ≡ some bytes)
unfolding save_wav_file
save_wav_file-some rate s ss = (_, refl)

-- A nonempty buffer of 16-bit samples that a RIFF size of 32 bits can hold, at a rate whose byte
-- rate fits as well, is saved as a file that the description above reads back: PCM, mono, 16 bits,
-- the sizes, the rates, and the same samples in the same order.
pub save_wav_file-read_wav :
    (rate s : ℕ) (ss : List ℕ)
    → All (λ s. s < 65536) (s ∷ ss)
    → 36 + length (s ∷ ss) * 2 < 2 ^ 32
    → rate * 2 < 2 ^ 32
    → reload (save_wav_file true rate (s ∷ ss))
      ≡ some (wav (36 + length (s ∷ ss) * 2) rate (rate * 2) (length (s ∷ ss) * 2) (s ∷ ss))
unfolding save_wav_file wav_bytes format_chunk data_chunk subchunk2_size
save_wav_file-read_wav rate s ss small fits rate_fits =
    let buffer = s ∷ ss in
    let size = subchunk2_size buffer in
    let n : size ≡ length buffer * 2 = size_value buffer fits in
    let size_read = u32_value size (omega (arith, n, fits)) in
    let chunk = 36 + size in
    let byte_rate = rate * 1 * 2 in
    wav_cong (u32_value (chunk % 2 ^ 32) (omega arith) ∙ omega (arith, n, fits))
      (u32_value rate (omega (arith, rate_fits)))
      (u32_value (byte_rate % 2 ^ 32) (omega arith) ∙ omega (arith, rate_fits)) (size_read ∙ n)
      (read_samples size _ buffer (sym n) (sym size_read) small)
