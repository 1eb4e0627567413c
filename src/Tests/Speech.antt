-- ===== src/Tests/Speech.antt =====
-- Voice detection, transcription and the rate limit on small inputs.
use live_translation.Base.{
  ◌+ℤ◌, ◌-ℤ◌, ℤ, pos, ◌≡◌, ◌⊎◌, refl, List, [], ◌∷◌, some, none, true, All, scale, map, arith,
}
use live_translation.Data.{ok, err, Error, Word, TextSegment, AudioData, passing}
use live_translation.Vad
use live_translation.Vad.Chunks.{
  join_segments, join_segments-merge_timeline, IsShort, merge_timeline-IsShort, IsTurn,
}
use live_translation.Vad.Total.{binarize_class_total}
use live_translation.ConfirmWords.{collect_words}
use live_translation.FasterWhisper
use live_translation.RateLimiter
use live_translation.Tests.Samples.{raw_data, package_of}

abbrev turns : List (ℤ × ℤ)
turns = (pos 2, pos 8) ∷ (pos 9, pos 15) ∷ (pos 15, pos 21) ∷ []

join_segments-merge_timeline_example : join_segments (Vad.merge_timeline (pos 15) turns) ≡ turns
join_segments-merge_timeline_example = join_segments-merge_timeline (pos 15) turns

two_chunks :
    Vad.merge_timeline (pos 15) turns
    ≡ record { start = pos 2; end = pos 15; segments = (pos 2, pos 8) ∷ (pos 9, pos 15) ∷ [] }
      ∷ record { start = pos 15; end = pos 21; segments = (pos 15, pos 21) ∷ [] }
      ∷ []
unfolding Vad.merge_timeline Vad.merge_loop Vad.merge_segment ◌-ℤ◌
two_chunks = refl

turns-IsTurn : All (IsTurn (pos 15)) turns
unfolding ◌+ℤ◌
turns-IsTurn = (
  record { forward = omega arith; short = omega arith },
  (
    record { forward = omega arith; short = omega arith },
    (record { forward = omega arith; short = omega arith }, tt),
  ),
)

merge_timeline-IsShort_example : All (IsShort (pos 15)) (Vad.merge_timeline (pos 15) turns)
merge_timeline-IsShort_example =
    merge_timeline-IsShort (pos 15) turns (omega arith, (omega arith, (omega arith, tt)))
      turns-IsTurn ((refl, (refl, tt)), ((refl, tt), (tt, tt)))

-- The onset is 5, the offset 4, and a region is divided once it is longer than 3.
abbrev hysteresis : Vad.Binarize
hysteresis = record {
  onset = pos 5;
  offset = pos 4;
  pad_onset = pos 0;
  pad_offset = pos 0;
  max_duration = some (pos 3);
}

abbrev times : List ℤ
times = pos 1 ∷ pos 2 ∷ pos 3 ∷ pos 4 ∷ pos 5 ∷ pos 6 ∷ pos 7 ∷ []

abbrev scores : List ℤ
scores = pos 6 ∷ pos 9 ∷ pos 7 ∷ pos 5 ∷ pos 8 ∷ pos 9 ∷ pos 1 ∷ []

divided :
    Vad.binarize_class hysteresis (pos 0 ∷ times) (pos 2 ∷ scores)
    ≡ ok ((pos 1, pos 4) ∷ (pos 4, pos 7) ∷ [])
unfolding Vad.binarize_class Vad.frames_loop Vad.step_frame Vad.step_active Vad.divide Vad.argmin
    Vad.least_from ◌-ℤ◌ ◌+ℤ◌
divided = refl

binarize_class_total_example :
    (regions : List (ℤ × ℤ)) × (Vad.binarize_class hysteresis (pos 0 ∷ times) (pos 2 ∷ scores)
      ≡ ok regions)
binarize_class_total_example = binarize_class_total hysteresis (pos 0) (pos 2) times scores

abbrev pub word : Word
word = record { word = 97 ∷ []; start = pos 1; end = pos 2; probability = pos 9 }

abbrev segment : TextSegment
segment = record {
  text = 97 ∷ [];
  start = pos 0;
  end = pos 3;
  words = some (word ∷ []);
  probability = none;
}

abbrev pub lib : FasterWhisper.WhisperLib
lib = record {
  transcribe_batched = λ audio size task chunks. ok (segment ∷ []);
  transcribe = λ audio task. ok [];
}

abbrev pub whisper : FasterWhisper.Whisper
whisper = record { task = []; batching = true; batch_size = 32; model = true; batched_model = true }

abbrev audio : AudioData
audio = record (raw_data []) {
  audio_data = some (pos 5 ∷ []);
  vad_result = some (Vad.merge_timeline (pos 15) turns);
  audio_buffer_start_after = some (pos 10);
}

ready : FasterWhisper.Ready whisper audio (pos 5 ∷ []) (pos 10)
unfolding Vad.merge_timeline Vad.merge_loop Vad.merge_segment ◌-ℤ◌
ready = record { samples = refl; voice = refl; start_there = refl }

collect_words-execute_example :
    ((e : Error) × (FasterWhisper.transcribed lib whisper audio (pos 5 ∷ []) ≡ err e)
      × (FasterWhisper.execute lib whisper (package_of audio)
          ≡ record { state = whisper; dp = package_of audio; raised = some e }))
    ⊎ ((spoken segments : List TextSegment) × (FasterWhisper.transcribed lib whisper audio
            (pos 5 ∷ [])
          ≡ ok spoken)
        × (FasterWhisper.execute lib whisper (package_of audio)
            ≡ passing whisper
                (package_of audio)
                (record audio { transcribed_segments = some segments }))
        × (collect_words segments
            ≡ map
                (λ w. record {
                  word = w.word;
                  start = w.start +ℤ pos 10;
                  end = w.end +ℤ pos 10;
                  probability = w.probability;
                })
                (collect_words spoken)))
collect_words-execute_example =
    FasterWhisper.collect_words-execute lib whisper (package_of audio) audio (pos 5 ∷ []) (pos 10)
      refl refl ready

abbrev limiter : RateLimiter.RateLimiter
limiter = record { flowrate_per_second = 2; last_package_time = pos 0 }

abbrev arrivals : List ℤ
arrivals = pos 1000 ∷ pos 1200 ∷ pos 1500 ∷ pos 1900 ∷ pos 2100 ∷ []

-- Two packages in a second of 1000 ticks.
limited :
    RateLimiter.passing_times 1000 limiter (package_of audio) arrivals
    ≡ pos 1000 ∷ pos 1500 ∷ pos 2100 ∷ []
unfolding RateLimiter.passing_times RateLimiter.execute ◌-ℤ◌ scale
limited = refl

passing_times-IsSpaced_example :
    RateLimiter.IsSpaced 1000 2
      (pos 0)
      (RateLimiter.passing_times 1000 limiter (package_of audio) arrivals)
passing_times-IsSpaced_example =
    RateLimiter.passing_times-IsSpaced 1000 limiter (package_of audio) arrivals refl refl
