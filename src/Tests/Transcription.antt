-- ===== src/Tests/Transcription.antt =====
-- A page through all modules, and the bytes that ffmpeg writes.
use live_translation.Base.{
  pos, ◌≡◌, ◌⊎◌, refl, [], ◌∷◌, none, true, false, ◌+ℤ◌, ◌-ℤ◌, scale, negsuc,
}
use live_translation.Data.{ok, Package}
use live_translation.Ogg.Headers.{signed_from_bytes}
use live_translation.RateLimiter
use live_translation.ConvertAudio
use live_translation.Vad
use live_translation.ConfirmWords
use live_translation.Pipeline
use live_translation.Pipeline.Words.{
  Libraries, RaisesWith, after_buffer, after_vad, after_whisper, after_confirm,
  after_confirm-IsConfirmed,
}
use live_translation.Tests.Samples.{package_of}
use live_translation.Tests.Buffer
use live_translation.Tests.Speech

program : Unit {0}
unfolding Buffer.program RateLimiter.execute ConvertAudio.execute
    ConvertAudio.load_audio_from_binary ConvertAudio.int16s signed_from_bytes Vad.execute Vad.detect
    Vad.decide Vad.merge_chunks Vad.binarize_classes Vad.binarize_class Vad.frames_loop
    Vad.step_frame Vad.step_active Vad.divide Vad.argmin Vad.least_from Vad.merge_timeline
    Vad.merge_loop Vad.merge_segment scale ◌-ℤ◌ ◌+ℤ◌
program = tt

two_samples : ConvertAudio.int16s (1 ∷ 0 ∷ 255 ∷ 255 ∷ []) ≡ ok (pos 1 ∷ negsuc 0 ∷ [])
unfolding program
two_samples = refl

-- ffmpeg writes two samples; the network scores two frames, and someone has spoken to the end.
abbrev libraries : Libraries
libraries = record {
  second = 1000;
  ffmpeg = λ raw rate. record { returncode = 0; out = 1 ∷ 0 ∷ 255 ∷ 255 ∷ []; stderr = [] };
  vad = record {
    apply = λ samples rate. record {
      timestamps = pos 0 ∷ pos 40000 ∷ [];
      classes = (pos 9 ∷ pos 9 ∷ []) ∷ [];
    };
    get_timeline = λ regions. (pos 0, pos 40000) ∷ [];
    default_onset = pos 5;
    is_float = true;
  };
  whisper = Speech.lib;
  text = record { lower = λ t. t; is_symbol = λ c. false; ratio = λ v w. pos 0 };
}

abbrev modules : Pipeline.Modules
modules = record {
  create_audio_buffer = Buffer.self;
  rate_limiter = RateLimiter.init 2;
  convert_audio = record { convert_sample_rate = 16_000 };
  vad = record { max_chunk_size = pos 960000; last_time_spoken_offset = pos 144000; loaded = true };
  faster_whisper = Speech.whisper;
  confirm_words = ConfirmWords.init (pos 0) 50 (pos 48000);
}

abbrev start_package : Package
start_package = package_of Buffer.audio

samples_there :
    (ConvertAudio.execute libraries.ffmpeg modules.convert_audio
      (after_buffer libraries modules start_package).dp).raised
    ≡ none
unfolding program
samples_there = refl

after_confirm-IsConfirmed_example :
    RaisesWith libraries.whisper modules.faster_whisper
      (after_vad libraries modules (pos 9000) start_package).dp
      (after_whisper libraries modules (pos 9000) start_package).raised
    ⊎ (((after_whisper libraries modules (pos 9000) start_package).raised ≡ none)
        × ((after_confirm libraries modules (pos 9000) start_package).raised ≡ none)
        × Pipeline.Holds Pipeline.IsConfirmed
            (after_confirm libraries modules (pos 9000) start_package).dp)
unfolding program RateLimiter.init
after_confirm-IsConfirmed_example =
    after_confirm-IsConfirmed libraries modules (pos 9000) start_package Buffer.audio
      Buffer.next_page refl refl Buffer.self-IsTimed refl (record { quiet = refl; goes_on = refl })
      (record { quiet = refl; goes_on = refl }) (record { quiet = refl; goes_on = refl })
