-- ===== src/Pipeline.antt =====
-- The modules one after the other, in the order of main.py's controllers: what each leaves for the
-- next. How the pipeline library calls them is not modelled; each module is given the package that the
-- one before has left.
pub mod Speech
pub mod Words
use live_translation.Base.{
  ℕ, ◌*◌, ◌+ℤ◌, ℤ, pos, ◌≡◌, ◌≢◌, refl, ap, sym, ◌∙◌, subst, Bool, true, false, ◌&&◌, Option, none,
  some, List, [], ◌∷◌, ◌++◌, inl, inr, ◌⊎◌, Bool-cases, Option-cases, if◌then◌else◌,
}
use live_translation.Data.{
  Text, Bytes, Result, ok, err, Error, Package, Outcome, raising, exiting, passing, AudioData,
  Chunk, Status, running, exit, Result-cases, TextSegment, Word,
}
use live_translation.AudioBuffer
use live_translation.RateLimiter
use live_translation.ConvertAudio
use live_translation.Vad
use live_translation.FasterWhisper
use live_translation.ConfirmWords

-- The modules, each with its own state.
pub record Modules : Type 0 where
  pub create_audio_buffer : AudioBuffer.CreateAudioBuffer
  pub rate_limiter : RateLimiter.RateLimiter
  pub convert_audio : ConvertAudio.ConvertAudio
  pub vad : Vad.Vad
  pub faster_whisper : FasterWhisper.Whisper
  pub confirm_words : ConfirmWords.ConfirmWords

abbrev transcribe : Text
transcribe = 116 ∷ 114 ∷ 97 ∷ 110 ∷ 115 ∷ 99 ∷ 114 ∷ 105 ∷ 98 ∷ 101 ∷ []

-- The modules of `controllers`, as they are before `init_module`, with `tenth` units of time in a tenth
-- of a second. Parameters that main.py does not give have their defaults.
unfoldable pub controllers : ℕ → Modules
controllers tenth = record {
  create_audio_buffer = AudioBuffer.init 30 1;
  rate_limiter = RateLimiter.init 2;
  convert_audio = record { convert_sample_rate = 16_000 };
  vad = record {
    max_chunk_size = pos (300 * tenth);
    last_time_spoken_offset = pos (30 * tenth);
    loaded = false;
  };
  faster_whisper = record {
    task = transcribe;
    batching = true;
    batch_size = 32;
    model = false;
    batched_model = false;
  };
  confirm_words = ConfirmWords.init (pos (3 * tenth)) 50 (pos (10 * tenth));
}

-- `init_module` of the modules that load a model.
unfoldable pub init_modules : Modules → Modules
init_modules m = record m {
  vad = record m.vad { loaded = true };
  faster_whisper = FasterWhisper.init_module m.faster_whisper;
}

-- A package with data of a given kind.
pub record Holds (P : AudioData → Type 0) (dp : Package) : Type 0 where
  pub d : AudioData
  pub there : dp.audio ≡ some d
  pub kind : P d

-- Create_Audio_Buffer has passed it on.
pub record IsWindow (d : AudioData) : Type 0 where
  pub time : ℤ
  pub start : ℤ
  pub time_there : d.audio_buffer_time ≡ some time
  pub start_there : d.audio_buffer_start_after ≡ some start

-- Convert_Audio has too.
pub record IsConverted (d : AudioData) : Type 0 where
  pub window : IsWindow d
  pub samples : List ℤ
  pub rate : ℕ
  pub samples_there : d.audio_data ≡ some samples
  pub rate_there : d.audio_data_sample_rate ≡ some rate

-- And VAD.
pub record IsSpoken (d : AudioData) : Type 0 where
  pub converted : IsConverted d
  pub first : Chunk
  pub chunks : List Chunk
  pub chunks_there : d.vad_result ≡ some (first ∷ chunks)

-- And Faster_Whisper_transcribe.
pub record IsTranscribed (d : AudioData) : Type 0 where
  pub window : IsWindow d
  pub segments : List TextSegment
  pub segments_there : d.transcribed_segments ≡ some segments

-- And Confirm_Words: what the callback of main.py asks for.
pub record IsConfirmed (d : AudioData) : Type 0 where
  pub confirmed : List Word
  pub unconfirmed : List Word
  pub confirmed_there : d.confirmed_words ≡ some confirmed
  pub unconfirmed_there : d.unconfirmed_words ≡ some unconfirmed

-- The call has not raised, nor left the pipeline.
pub record Passes {S : Type 0} (o : Outcome S) : Type 0 where
  pub quiet : o.raised ≡ none
  pub goes_on : o.dp.status ≡ running

pub some-none : (e : Error) → some e ≡ none → ⊥
some-none e q = cc

pub exit-running : exit ≡ running → ⊥
exit-running q = cc

module _ (ffmpeg : Bytes → ℕ → ConvertAudio.Run) (self : ConvertAudio.ConvertAudio) where
  convert-Holds :
      (dp : Package) (d : AudioData) (r : Result (List ℤ))
      → IsWindow d
      → Passes (ConvertAudio.convert ffmpeg self dp d r)
      → Holds IsConverted (ConvertAudio.convert ffmpeg self dp d r).dp
  convert-Holds dp d (err e) w p = absurd (some-none e p.quiet)
  convert-Holds dp d (ok samples) w p = record {
    d = record d {
      audio_data_sample_rate = some self.convert_sample_rate;
      audio_data = some samples;
    };
    there = refl;
    kind = record {
      window = record {
        time = w.time;
        start = w.start;
        time_there = w.time_there;
        start_there = w.start_there;
      };
      samples = samples;
      rate = self.convert_sample_rate;
      samples_there = refl;
      rate_there = refl;
    };
  }

  execute_raw-Holds :
      (dp : Package) (d : AudioData) (raw : Bytes)
      → IsWindow d
      → Passes (ConvertAudio.execute_raw ffmpeg self dp d raw)
      → Holds IsConverted (ConvertAudio.execute_raw ffmpeg self dp d raw).dp
  execute_raw-Holds dp d [] w p = absurd (some-none _ p.quiet)
  execute_raw-Holds dp d (b ∷ bs) w p =
      convert-Holds dp d (ConvertAudio.load_audio_from_binary ffmpeg self (b ∷ bs)) w p

  pub convert_step :
      (dp : Package)
      → Holds IsWindow dp
      → Passes (ConvertAudio.execute ffmpeg self dp)
      → Holds IsConverted (ConvertAudio.execute ffmpeg self dp).dp
  unfolding ConvertAudio.execute
  convert_step dp h p = by_audio dp.audio h.there p
    where
      by_audio :
          (a : Option AudioData)
          → a ≡ some h.d
          → Passes (ConvertAudio.execute_on ffmpeg self dp a)
          → Holds IsConverted (ConvertAudio.execute_on ffmpeg self dp a).dp
      by_audio none e q = absurd (cc)
      by_audio (some d) e q =
          let same : h.d ≡ d = cc in
          execute_raw-Holds dp d d.raw_audio_data (subst IsWindow same h.kind) q
