-- ===== src/Pipeline/Speech.antt =====
-- The packages that VAD lets pass: they carry chunks of voice beside what they came with.
use live_translation.Base.{
  ℕ, ◌-ℤ◌, ℤ, ◌≡◌, refl, subst, Bool, true, false, Option, none, some, List, [], ◌∷◌, if◌then◌else◌,
  ltb_ℤ,
}
use live_translation.Data.{
  Result, ok, err, exception, Package, Outcome, raising, AudioData, Chunk, exit,
}
use live_translation.Vad
use live_translation.Pipeline.{Holds, IsConverted, IsSpoken, Passes, some-none, exit-running}

module _ (lib : Vad.VadLib) (self : Vad.Vad) where
  -- What the data is when `merge_chunks` has ended.
  decide-Holds :
      (dp : Package) (d : AudioData) (t : ℤ) (chunks : List Chunk)
      → IsConverted d
      → Passes (Vad.decide lib self dp d t chunks)
      → Holds IsSpoken (Vad.decide lib self dp d t chunks).dp
  unfolding Vad.decide
  decide-Holds dp d t [] c p = absurd (exit-running p.goes_on)
  decide-Holds dp d t (x ∷ xs) c p =
      by_voice (ltb_ℤ (Vad.last_time_spoken lib (x ∷ xs)) (t -ℤ self.last_time_spoken_offset)) p
    where
      spoken : AudioData
      spoken = record d { vad_result = some (x ∷ xs) }

      left : Bool → Outcome Vad.Vad
      left b =
          if b
          then record {
            state = self;
            dp = record dp { audio = some spoken; status = exit; message = "No voice detected" };
            raised = none;
          }
          else record { state = self; dp = record dp { audio = some spoken }; raised = none }

      by_voice : (b : Bool) → Passes (left b) → Holds IsSpoken (left b).dp
      by_voice true q = absurd (exit-running q.goes_on)
      by_voice false q = record {
        d = spoken;
        there = refl;
        kind = record {
          converted = record {
            window = record {
              time = c.window.time;
              start = c.window.start;
              time_there = c.window.time_there;
              start_there = c.window.start_there;
            };
            samples = c.samples;
            rate = c.rate;
            samples_there = c.samples_there;
            rate_there = c.rate_there;
          };
          first = x;
          chunks = xs;
          chunks_there = refl;
        };
      }

  detect-Holds :
      (dp : Package) (d : AudioData) (a : List ℤ) (t : ℤ) (r : ℕ)
      → IsConverted d
      → Passes (Vad.detect lib self dp d a t r)
      → Holds IsSpoken (Vad.detect lib self dp d a t r).dp
  unfolding Vad.detect
  detect-Holds dp d a t r c p =
      by_chunks
        (Vad.merge_chunks lib (lib.apply a r)
          (if ltb_ℤ t self.max_chunk_size then t else self.max_chunk_size))
        p
    where
      left : Result (List Chunk) → Outcome Vad.Vad
      left m = elim m [ err e ↦ raising self dp e | ok chunks ↦ Vad.decide lib self dp d t chunks ]

      by_chunks : (m : Result (List Chunk)) → Passes (left m) → Holds IsSpoken (left m).dp
      by_chunks (err e) q = absurd (some-none e q.quiet)
      by_chunks (ok chunks) q = decide-Holds dp d t chunks c q

  execute_on-Holds :
      (dp : Package) (d : AudioData) (a : Option (List ℤ)) (t : Option ℤ) (r : Option ℕ)
      → IsConverted d
      → Passes (Vad.execute_on lib self dp d a t r)
      → Holds IsSpoken (Vad.execute_on lib self dp d a t r).dp
  execute_on-Holds dp d none t r c p = absurd (some-none _ p.quiet)
  execute_on-Holds dp d (some a) none r c p = absurd (some-none _ p.quiet)
  execute_on-Holds dp d (some a) (some t) none c p = absurd (some-none _ p.quiet)
  execute_on-Holds dp d (some a) (some t) (some r) c p = detect-Holds dp d a t r c p

  pub vad_step :
      (dp : Package)
      → Holds IsConverted dp
      → Passes (Vad.execute lib self dp)
      → Holds IsSpoken (Vad.execute lib self dp).dp
  unfolding Vad.execute
  vad_step dp h p = by_state self.loaded dp.audio h.there p
    where
      left : Bool → Option AudioData → Outcome Vad.Vad
      left b a =
          if b
          then elim a [
            | none ↦ raising self dp (exception "No data found")
            | some d ↦
                Vad.execute_on lib self dp d d.audio_data d.audio_buffer_time
                  d.audio_data_sample_rate
          ]
          else raising self dp (exception "Whisper model not loaded")

      by_state :
          (b : Bool) (a : Option AudioData)
          → a ≡ some h.d
          → Passes (left b a)
          → Holds IsSpoken (left b a).dp
      by_state false a e q = absurd (some-none _ q.quiet)
      by_state true none e q = absurd (cc)
      by_state true (some d) e q =
          let same : h.d ≡ d = cc in
          execute_on-Holds dp d d.audio_data d.audio_buffer_time d.audio_data_sample_rate
            (subst IsConverted same h.kind) q
