-- ===== src/Pipeline/Words.antt =====
-- What Faster_Whisper_transcribe and Confirm_Words make of a package with voice, and all modules in a row.
use live_translation.Base.{
  ℕ, ◌+ℤ◌, ℤ, ◌≡◌, refl, ap, sym, ◌∙◌, subst, Bool, true, false, ◌&&◌, Option, none, some, List, [],
  ◌∷◌, ◌⊎◌, inl, inr, if◌then◌else◌, ◌==◌,
}
use live_translation.Data.{Bytes, ok, err, Error, Package, Outcome, exiting, AudioData, Chunk, Word}
use live_translation.Ogg.Page.{OggSPage, new_page}
use live_translation.AudioBuffer
use live_translation.AudioBuffer.Timing.{IsTimed, PassesOn, init-IsTimed}
use live_translation.AudioBuffer.Calls.{execute-PassesOn}
use live_translation.RateLimiter
use live_translation.ConvertAudio
use live_translation.Vad
use live_translation.FasterWhisper
use live_translation.ConfirmWords
use live_translation.Pipeline.{
  controllers, init_modules, Modules, Holds, IsWindow, IsSpoken, IsTranscribed, IsConfirmed, Passes,
  convert_step,
}
use live_translation.Pipeline.Speech.{vad_step}

PassesOn-Holds :
    (d : AudioData) (page : OggSPage) (o : Outcome AudioBuffer.CreateAudioBuffer)
    → PassesOn d page o
    → Holds IsWindow o.dp
PassesOn-Holds d page o p = record {
  d = record d {
    raw_audio_data = _;
    audio_buffer_time = some p.time;
    audio_buffer_start_after = some p.start;
  };
  there = p.written;
  kind = record { time = p.time; start = p.start; time_there = refl; start_there = refl };
}

audio_kept :
    (second : ℕ) (self : RateLimiter.RateLimiter) (now : ℤ) (dp : Package)
    → (RateLimiter.execute second self now dp).dp.audio ≡ dp.audio
unfolding RateLimiter.execute
audio_kept second self now dp =
    by_tests (self.flowrate_per_second == 0) (RateLimiter.too_soon second self now)
  where
    by_tests :
        (b c : Bool)
        → (if b
            then RateLimiter.leave second self dp
            else (if c
                then exiting self dp "Rate limit exceeded"
                else RateLimiter.leave second
                    (record self { last_package_time = now })
                    dp)).dp.audio
          ≡ dp.audio
    by_tests true c = refl
    by_tests false true = refl
    by_tests false false = refl

rate_step :
    (second : ℕ) (self : RateLimiter.RateLimiter) (now : ℤ) (dp : Package)
    → Holds IsWindow dp
    → Holds IsWindow (RateLimiter.execute second self now dp).dp
rate_step second self now dp h = record {
  d = h.d;
  there = audio_kept second self now dp ∙ h.there;
  kind = h.kind;
}

lacks_voice-some :
    (d : AudioData) (c : Chunk) (cs : List Chunk)
    → d.vad_result ≡ some (c ∷ cs)
    → FasterWhisper.lacks_voice d.vad_result ≡ false
lacks_voice-some d c cs e = ap FasterWhisper.lacks_voice e

-- A call that has transcribed raises nothing and leaves the segments in the package.
record Transcribes (o : Outcome FasterWhisper.Whisper) : Type 0 where
  pub quiet : o.raised ≡ none
  pub holds : Holds IsTranscribed o.dp

-- The transcription of the package's samples raises what the call raises.
abbrev pub RaisesWith :
    FasterWhisper.WhisperLib → FasterWhisper.Whisper → Package → Option Error → Type 0
RaisesWith lib self dp raised =
    (d : AudioData) × (audio : List ℤ) × (e : Error) × (dp.audio ≡ some d)
    × (d.audio_data ≡ some audio)
    × (FasterWhisper.transcribed lib self d audio ≡ err e)
    × (raised ≡ some e)

whisper_step :
    (lib : FasterWhisper.WhisperLib) (self : FasterWhisper.Whisper) (dp : Package)
    → self.model ≡ true
    → Holds IsSpoken dp
    → RaisesWith lib self dp (FasterWhisper.execute lib self dp).raised
      ⊎ Transcribes (FasterWhisper.execute lib self dp)
whisper_step lib self dp m h =
    let k = h.kind in
    elim (FasterWhisper.collect_words-execute lib self dp h.d k.converted.samples
      k.converted.window.start m h.there
      (record {
        samples = k.converted.samples_there;
        voice = ap (λ b. b && self.batching) (lacks_voice-some h.d k.first k.chunks k.chunks_there);
        start_there = k.converted.window.start_there;
      })) [
        | inl (e, q, r) ↦ inl (
          h.d,
          k.converted.samples,
          e,
          h.there,
          k.converted.samples_there,
          q,
          ap (λ o. o.raised) r,
        )
        | inr (spoken, segments, q, r, c) ↦ inr (
            subst Transcribes (sym r) (record {
              quiet = refl;
              holds = record {
                d = record h.d { transcribed_segments = some segments };
                there = refl;
                kind = record {
                  window = record {
                    time = k.converted.window.time;
                    start = k.converted.window.start;
                    time_there = k.converted.window.time_there;
                    start_there = k.converted.window.start_there;
                  };
                  segments = segments;
                  segments_there = refl;
                };
              };
            }))
      ]

record Confirms (o : Outcome ConfirmWords.ConfirmWords) : Type 0 where
  pub quiet : o.raised ≡ none
  pub holds : Holds IsConfirmed o.dp

confirm-Confirms :
    (lib : ConfirmWords.TextLib) (self : ConfirmWords.ConfirmWords) (dp : Package) (d : AudioData)
    (now : ℤ) (ws : List Word)
    → Confirms (ConfirmWords.confirm lib self dp d now ws)
unfolding ConfirmWords.confirm
confirm-Confirms lib self dp d now [] = record {
  quiet = refl;
  holds = record {
    d = _;
    there = refl;
    kind = record {
      confirmed = _;
      unconfirmed = _;
      confirmed_there = refl;
      unconfirmed_there = refl;
    };
  };
}
confirm-Confirms lib self dp d now (w ∷ ws) = record {
  quiet = refl;
  holds = record {
    d = _;
    there = refl;
    kind = record {
      confirmed = _;
      unconfirmed = _;
      confirmed_there = refl;
      unconfirmed_there = refl;
    };
  };
}

confirm_step :
    (lib : ConfirmWords.TextLib) (self : ConfirmWords.ConfirmWords) (dp : Package)
    → Holds IsTranscribed dp
    → Confirms (ConfirmWords.execute lib self dp)
unfolding ConfirmWords.execute
confirm_step lib self dp h =
    subst Confirms
      (sym (
        ap (ConfirmWords.execute_on lib self dp) h.there
        ∙ ap (ConfirmWords.execute_segments lib self dp h.d) h.kind.segments_there
        ∙ ap
            (λ s.
              ConfirmWords.execute_times lib self dp h.d h.kind.segments s h.d.audio_buffer_time)
            h.kind.window.start_there
        ∙ ap (ConfirmWords.execute_times lib self dp h.d h.kind.segments (some h.kind.window.start))
            h.kind.window.time_there))
      (confirm-Confirms lib self dp h.d (h.kind.window.start +ℤ h.kind.window.time)
        (ConfirmWords.collect_words h.kind.segments))

-- The modules of main.py, once their models are loaded, are in a state from which the chain works.
controllers-IsTimed :
    (tenth : ℕ)
    → IsTimed (init_modules (controllers tenth)).create_audio_buffer
      × ((init_modules (controllers tenth)).faster_whisper.model ≡ true)
unfolding init_modules controllers FasterWhisper.init_module
controllers-IsTimed tenth = (init-IsTimed 30 1, refl)

-- What the modules take from the libraries.
pub record Libraries : Type 0 where
  pub second : ℕ
  pub ffmpeg : Bytes → ℕ → ConvertAudio.Run
  pub vad : Vad.VadLib
  pub whisper : FasterWhisper.WhisperLib
  pub text : ConfirmWords.TextLib

-- Each module on the package that the one before it leaves.
module _ (lib : Libraries) (m : Modules) where
  abbrev pub after_buffer : Package → Outcome AudioBuffer.CreateAudioBuffer
  after_buffer dp = AudioBuffer.execute m.create_audio_buffer dp

  abbrev pub after_limiter : ℤ → Package → Outcome RateLimiter.RateLimiter
  after_limiter now dp = RateLimiter.execute lib.second m.rate_limiter now (after_buffer dp).dp

  abbrev pub after_convert : ℤ → Package → Outcome ConvertAudio.ConvertAudio
  after_convert now dp = ConvertAudio.execute lib.ffmpeg m.convert_audio (after_limiter now dp).dp

  abbrev pub after_vad : ℤ → Package → Outcome Vad.Vad
  after_vad now dp = Vad.execute lib.vad m.vad (after_convert now dp).dp

  abbrev pub after_whisper : ℤ → Package → Outcome FasterWhisper.Whisper
  after_whisper now dp = FasterWhisper.execute lib.whisper m.faster_whisper (after_vad now dp).dp

  abbrev pub after_confirm : ℤ → Package → Outcome ConfirmWords.ConfirmWords
  after_confirm now dp = ConfirmWords.execute lib.text m.confirm_words (after_whisper now dp).dp

  -- On a package with one page, and a window whose end is where its last page says, with the models
  -- loaded: once Create_Audio_Buffer, Convert_Audio and VAD have let the package pass, either
  -- Faster_Whisper_transcribe raises the exception that the transcription of the package's samples has raised, or
  -- neither it nor Confirm_Words raises one, and in the end the package has both the confirmed and the
  -- unconfirmed words.
  pub after_confirm-IsConfirmed :
      (now : ℤ) (dp : Package) (d : AudioData) (page : OggSPage)
      → dp.audio ≡ some d
      → new_page d.raw_audio_data ≡ ok page
      → IsTimed m.create_audio_buffer
      → m.faster_whisper.model ≡ true
      → Passes (after_buffer dp)
      → Passes (after_convert now dp)
      → Passes (after_vad now dp)
      → RaisesWith lib.whisper m.faster_whisper (after_vad now dp).dp (after_whisper now dp).raised
        ⊎ (((after_whisper now dp).raised ≡ none)
            × ((after_confirm now dp).raised ≡ none)
            × Holds IsConfirmed (after_confirm now dp).dp)
  after_confirm-IsConfirmed now dp d page a n t l b c v =
      let window =
        PassesOn-Holds d page (after_buffer dp)
          (execute-PassesOn m.create_audio_buffer dp d page a n t b.quiet b.goes_on) in
      let limited = rate_step lib.second m.rate_limiter now (after_buffer dp).dp window in
      let converted = convert_step lib.ffmpeg m.convert_audio (after_limiter now dp).dp limited c in
      let spoken = vad_step lib.vad m.vad (after_convert now dp).dp converted v in
      elim (whisper_step lib.whisper m.faster_whisper (after_vad now dp).dp l spoken) [
        | inl r ↦ inl r
        | inr w ↦
            let k = confirm_step lib.text m.confirm_words (after_whisper now dp).dp w.holds in
            inr (w.quiet, k.quiet, k.holds)
      ]
