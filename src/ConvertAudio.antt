-- ===== src/ConvertAudio.antt =====
-- m_convert_audio.py: the window as bytes becomes samples, by way of ffmpeg, which is a parameter. A
-- sample is a float, and stands here as a whole number of units of 1/32768: the division by 32768.0 of the
-- 16-bit integer that ffmpeg writes gives exactly as many units as the integer says.
use live_translation.Base.{ℕ, ℤ, Option, none, some, List, [], ◌∷◌, ◌==◌, if◌then◌else◌}
use live_translation.Data.{
  Bytes, Result, ok, err, ◌>>=◌, exception, runtime_error, value_error, AudioData, Package, Outcome,
  raising, passing,
}
use live_translation.Ogg.Headers.{signed_from_bytes}
use live_translation.Ogg.Utf8.{decode}

-- What `communicate` leaves of a run of ffmpeg, on bytes and at a rate.
pub record Run : Type 0 where
  pub returncode : ℕ
  pub out : Bytes
  pub stderr : Bytes

pub record ConvertAudio : Type 0 where
  pub convert_sample_rate : ℕ

-- `np.frombuffer(out, np.int16).flatten().astype(np.float32) / 32768.0`, in units of 1/32768.
unfoldable pub int16s : Bytes → Result (List ℤ)
int16s [] = ok []
int16s (a ∷ []) = err (value_error "buffer size must be a multiple of element size")
int16s (a ∷ b ∷ bs) = int16s bs >>= λ xs. ok (signed_from_bytes (a ∷ b ∷ []) ∷ xs)

-- `err.decode()` comes before the exception that carries it.
abbrev pub failed : Bytes → Result (List ℤ)
failed stderr = decode stderr >>= λ t. err (runtime_error "Failed to load audio")

module _ (ffmpeg : Bytes → ℕ → Run) where
  -- `load_audio_from_binary`
  unfoldable pub load_audio_from_binary : ConvertAudio → Bytes → Result (List ℤ)
  load_audio_from_binary self data_ =
      let process = ffmpeg data_ self.convert_sample_rate in
      if process.returncode == 0 then int16s process.out else failed process.stderr

  abbrev pub convert : ConvertAudio → Package → AudioData → Result (List ℤ) → Outcome ConvertAudio
  convert self dp d (err e) = raising self dp e
  convert self dp d (ok samples) = passing self dp (record d {
    audio_data_sample_rate = some self.convert_sample_rate;
    audio_data = some samples;
  })

  abbrev pub execute_raw : ConvertAudio → Package → AudioData → Bytes → Outcome ConvertAudio
  execute_raw self dp d [] = raising self dp (exception "No audio data found")
  execute_raw self dp d (b ∷ bs) = convert self dp d (load_audio_from_binary self (b ∷ bs))

  abbrev pub execute_on : ConvertAudio → Package → Option AudioData → Outcome ConvertAudio
  execute_on self dp none = raising self dp (exception "No data found")
  execute_on self dp (some d) = execute_raw self dp d d.raw_audio_data

  unfoldable pub execute : ConvertAudio → Package → Outcome ConvertAudio
  execute self dp = execute_on self dp dp.audio
