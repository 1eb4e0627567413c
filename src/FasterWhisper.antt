-- ===== src/FasterWhisper.antt =====
-- m_faster_whisper.py: the transcription, moved to the time of the stream. The models of the
-- faster-whisper package are parameters: what they give for samples, or the exception that the call, or
-- the generator of its segments, raises.
use live_translation.Base.{
  ℕ, ◌+ℤ◌, ℤ, ◌≡◌, refl, ap, sym, ◌∙◌, Bool, true, false, ◌&&◌, Option, none, some, List, [], ◌∷◌,
  ◌⊎◌, inl, inr, ◌++◌, map, if◌then◌else◌,
}
use live_translation.Data.{
  Result, ok, err, Error, Text, Word, TextSegment, Chunk, AudioData, Package, Outcome, exception,
  raising, passing,
}
use live_translation.ConfirmWords.{collect_words}

-- `transcribe` of the batched model, by its batch size, task and the chunks of the voice detection,
-- and `transcribe` of the model itself.
pub record WhisperLib : Type 0 where
  pub transcribe_batched : List ℤ → ℕ → Text → Option (List Chunk) → Result (List TextSegment)
  pub transcribe : List ℤ → Text → Result (List TextSegment)

pub record Whisper : Type 0 where
  pub task : Text
  pub batching : Bool
  pub batch_size : ℕ
  pub model : Bool
  pub batched_model : Bool

-- `init_module`
unfoldable pub init_module : Whisper → Whisper
init_module self = record self { model = true; batched_model = self.batching }

abbrev pub shift : ℤ → Word → Word
shift by w = record w { start = w.start +ℤ by; end = w.end +ℤ by }

abbrev pub words_of : Option (List Word) → List Word
words_of none = []
words_of (some ws) = ws

-- The body of the loop over the segments.
unfoldable pub shift_segment : ℤ → TextSegment → TextSegment
shift_segment by s = record {
  text = s.text;
  start = s.start +ℤ by;
  end = s.end +ℤ by;
  words = some (map (shift by) (words_of s.words));
  probability = none;
}

unfoldable pub transcribed : WhisperLib → Whisper → AudioData → List ℤ → Result (List TextSegment)
transcribed lib self d audio =
    if self.batching && self.batched_model
    then lib.transcribe_batched audio self.batch_size self.task d.vad_result
    else lib.transcribe audio self.task

-- `not dp.data.vad_result`
abbrev pub lacks_voice : Option (List Chunk) → Bool
lacks_voice none = true
lacks_voice (some []) = true
lacks_voice (some (c ∷ cs)) = false

abbrev pub write_segments :
    Whisper → Package → AudioData → ℤ → Result (List TextSegment) → Outcome Whisper
write_segments self dp d s (err e) = raising self dp e
write_segments self dp d s (ok segments) =
    passing self dp (record d { transcribed_segments = some (map (shift_segment s) segments) })

abbrev pub execute_from :
    WhisperLib → Whisper → Package → AudioData → List ℤ → Option ℤ → Outcome Whisper
execute_from lib self dp d audio none =
    raising self dp (exception "No audio buffer start after found")
execute_from lib self dp d audio (some s) =
    write_segments self dp d s (transcribed lib self d audio)

abbrev pub execute_audio :
    WhisperLib → Whisper → Package → AudioData → Option (List ℤ) → Outcome Whisper
execute_audio lib self dp d none = raising self dp (exception "No audio data found")
execute_audio lib self dp d (some audio) =
    if lacks_voice d.vad_result && self.batching
    then raising self dp (exception "No audio data from VAD found")
    else execute_from lib self dp d audio d.audio_buffer_start_after

abbrev pub execute_on : WhisperLib → Whisper → Package → Option AudioData → Outcome Whisper
execute_on lib self dp none = raising self dp (exception "No data found")
execute_on lib self dp (some d) = execute_audio lib self dp d d.audio_data

unfoldable pub execute : WhisperLib → Whisper → Package → Outcome Whisper
execute lib self dp =
    if self.model
    then execute_on lib self dp dp.audio
    else raising self dp (exception "Whisper model not loaded")

map-append : (f : Word → Word) (vs ws : List Word) → map f (vs ++ ws) ≡ map f vs ++ map f ws
map-append f [] ws = refl
map-append f (v ∷ vs) ws = ap (◌∷◌ (f v)) (map-append f vs ws)

collect_words-shift_segment :
    (by : ℤ) (ss : List TextSegment)
    → collect_words (map (shift_segment by) ss) ≡ map (shift by) (collect_words ss)
unfolding shift_segment
collect_words-shift_segment by [] = refl
collect_words-shift_segment by (s ∷ ss) = by_words s.words (collect_words-shift_segment by ss)
  where
    by_words :
        (o : Option (List Word))
        → collect_words (map (shift_segment by) ss) ≡ map (shift by) (collect_words ss)
        → map (shift by) (words_of o) ++ collect_words (map (shift_segment by) ss)
          ≡ map (shift by) (elim o [ none ↦ collect_words ss | some ws ↦ ws ++ collect_words ss ])
    by_words none h = h
    by_words (some ws) h =
        ap (λ x. map (shift by) ws ++ x) h ∙ sym (map-append (shift by) ws (collect_words ss))

-- Data that the module can transcribe: samples, voice where batches are asked for, and the start.
pub record Ready (self : Whisper) (d : AudioData) (audio : List ℤ) (start : ℤ) : Type 0 where
  pub samples : d.audio_data ≡ some audio
  pub voice : (lacks_voice d.vad_result && self.batching) ≡ false
  pub start_there : d.audio_buffer_start_after ≡ some start

-- What a call comes to is what it writes of the transcription, on data that is ready.
execute-Ready :
    (lib : WhisperLib) (self : Whisper) (dp : Package) (d : AudioData) (audio : List ℤ) (start : ℤ)
    → self.model ≡ true
    → dp.audio ≡ some d
    → Ready self d audio start
    → execute lib self dp ≡ write_segments self dp d start (transcribed lib self d audio)
unfolding execute
execute-Ready lib self dp d audio start m a r =
    ap
      (λ b.
        if b
        then execute_on lib self dp dp.audio
        else raising self dp (exception "Whisper model not loaded"))
      m
    ∙ ap (execute_on lib self dp) a
    ∙ ap (execute_audio lib self dp d) r.samples
    ∙ ap
        (λ b.
          if b
          then raising self dp (exception "No audio data from VAD found")
          else execute_from lib self dp d audio d.audio_buffer_start_after)
        r.voice
    ∙ ap (execute_from lib self dp d audio) r.start_there

-- With its model loaded, and on data with samples, a start time and, where batching is on, chunks of
-- voice: where the transcription of the samples raises no exception, a call passes data on from which
-- Confirm_Words collects exactly the words of the transcription, in their order, with their text and
-- probability, and the start time of the buffer added both to their start and to their end. Where the
-- transcription raises one, so does the call, and the package is left as it was.
pub collect_words-execute :
    (lib : WhisperLib) (self : Whisper) (dp : Package) (d : AudioData) (audio : List ℤ) (start : ℤ)
    → self.model ≡ true
    → dp.audio ≡ some d
    → Ready self d audio start
    → ((e : Error) × (transcribed lib self d audio ≡ err e)
        × (execute lib self dp ≡ record { state = self; dp = dp; raised = some e }))
      ⊎ ((spoken segments : List TextSegment) × (transcribed lib self d audio ≡ ok spoken)
          × (execute lib self dp
              ≡ passing self dp (record d { transcribed_segments = some segments }))
          × (collect_words segments
              ≡ map
                  (λ w. record {
                    word = w.word;
                    start = w.start +ℤ start;
                    end = w.end +ℤ start;
                    probability = w.probability;
                  })
                  (collect_words spoken)))
collect_words-execute lib self dp d audio start m a r =
    by_result (transcribed lib self d audio) refl
  where
    written : execute lib self dp ≡ write_segments self dp d start (transcribed lib self d audio)
    written = execute-Ready lib self dp d audio start m a r

    by_result :
        (t : Result (List TextSegment))
        → transcribed lib self d audio ≡ t
        → ((e : Error) × (transcribed lib self d audio ≡ err e)
            × (execute lib self dp ≡ record { state = self; dp = dp; raised = some e }))
          ⊎ ((spoken segments : List TextSegment) × (transcribed lib self d audio ≡ ok spoken)
              × (execute lib self dp
                  ≡ passing self dp (record d { transcribed_segments = some segments }))
              × (collect_words segments
                  ≡ map
                      (λ w. record {
                        word = w.word;
                        start = w.start +ℤ start;
                        end = w.end +ℤ start;
                        probability = w.probability;
                      })
                      (collect_words spoken)))
    by_result (err e) q = inl (e, q, written ∙ ap (write_segments self dp d start) q)
    by_result (ok ss) q = inr (
      ss,
      map (shift_segment start) ss,
      q,
      written ∙ ap (write_segments self dp d start) q,
      collect_words-shift_segment start ss,
    )
