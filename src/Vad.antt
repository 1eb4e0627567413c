-- ===== src/Vad.antt =====
-- m_vad.py: the hysteresis that turns scores into regions, the merge of regions into chunks, and the
-- module that lets a package pass where someone has spoken lately. Times, scores and thresholds are
-- integers in any unit. The network and pyannote's Annotation are parameters.
pub mod Load
pub mod Chunks
pub mod Total
use live_translation.Base.{
  ℕ, zero, suc, ◌+◌, ◌-◌, ◌/◌, ◌+ℤ◌, ◌-ℤ◌, ℤ, pos, Bool, true, false, ◌&&◌, Option, none, some,
  List, [], ◌∷◌, ◌++◌, map, ltb_ℤ, leb_ℤ, if◌then◌else◌, length, drop, get_elem?, get_last?,
}
use live_translation.Data.{
  Result, ok, err, ◌>>=◌, Error, value_error, index_error, assertion_error, exception, Chunk,
  AudioData, Package, Outcome, raising, exiting, passing,
}

-- What `apply` gives: the middle of each frame, and for each class the scores of the frames.
pub record Scores : Type 0 where
  pub timestamps : List ℤ
  pub classes : List (List ℤ)

-- `max_duration` is infinite where it is none.
pub record Binarize : Type 0 where
  pub onset : ℤ
  pub offset : ℤ
  pub pad_onset : ℤ
  pub pad_offset : ℤ
  pub max_duration : Option ℤ

-- The variables of the loop over the frames of one class; `regions` are the segments that have been
-- put into `active`, in this order.
pub record Binarized : Type 0 where
  pub start : ℤ
  pub is_active : Bool
  pub curr_scores : List ℤ
  pub curr_timestamps : List ℤ
  pub t : ℤ
  pub regions : List (ℤ × ℤ)

-- `np.argmin`: the first place of the least score.
unfoldable pub least_from : ℕ → ℕ → ℤ → List ℤ → ℕ
least_from best i y [] = best
least_from best i y (x ∷ xs) =
    if ltb_ℤ x y then least_from i (i + 1) x xs else least_from best (i + 1) y xs

unfoldable pub argmin : List ℤ → Result ℕ
argmin [] = err (value_error "attempt to get argmin of an empty sequence")
argmin (x ∷ xs) = ok (least_from 0 1 x xs)

abbrev pub at : List ℤ → ℕ → Result ℤ
at xs i = elim (get_elem? xs i) [ none ↦ err index_error | some x ↦ ok x ]

abbrev pub put_region : Binarize → Binarized → ℤ → List (ℤ × ℤ)
put_region self b end = b.regions ++ (b.start -ℤ self.pad_onset, end +ℤ self.pad_offset) ∷ []

-- `curr_scores.append(y)` and `curr_timestamps.append(t)`
abbrev pub append_score : Binarized → ℤ → ℤ → Binarized
append_score b t y = record b {
  curr_scores = b.curr_scores ++ y ∷ [];
  curr_timestamps = b.curr_timestamps ++ t ∷ [];
}

-- The segment is divided at its least score.
unfoldable pub divide : Binarize → Binarized → Result Binarized
divide self b =
    let search_after = length b.curr_scores / 2 in
    argmin (drop search_after b.curr_scores) >>= λ least.
    let min_score_div_idx = search_after + least in
    at b.curr_timestamps min_score_div_idx >>= λ min_score_t. ok (record b {
      regions = put_region self b min_score_t;
      start = min_score_t;
      curr_scores = drop (min_score_div_idx + 1) b.curr_scores;
      curr_timestamps = drop (min_score_div_idx + 1) b.curr_timestamps;
    })

abbrev pub exceeds : ℤ → Option ℤ → Bool
exceeds d none = false
exceeds d (some m) = ltb_ℤ m d

-- The region ends with the frame at `t`.
abbrev pub close_region : Binarize → Binarized → ℤ → Binarized
close_region self b t = record b {
  regions = put_region self b t;
  start = t;
  is_active = false;
  curr_scores = [];
  curr_timestamps = [];
}

-- The body of the loop over the frames, at a frame with the score `y`; `t` is set already.
unfoldable pub step_active : Binarize → Binarized → ℤ → ℤ → Result Binarized
unfolding divide
step_active self b t y =
    if exceeds (t -ℤ b.start) self.max_duration
    then (divide self b >>= λ c. ok (append_score c t y))
    else ok (append_score (if ltb_ℤ y self.offset then close_region self b t else b) t y)

unfoldable pub step_frame : Binarize → Binarized → ℤ → ℤ → Result Binarized
step_frame self b t y =
    let c = record b { t = t } in
    if c.is_active
    then step_active self c t y
    else ok (if ltb_ℤ self.onset y then record c { start = t; is_active = true } else c)

-- `zip(timestamps[1:], k_scores[1:])`
unfoldable pub frames_loop : Binarize → Binarized → List ℤ → List ℤ → Result Binarized
frames_loop self b [] ys = ok b
frames_loop self b (t ∷ ts) [] = ok b
frames_loop self b (t ∷ ts) (y ∷ ys) = step_frame self b t y >>= λ c. frames_loop self c ts ys

-- The regions of one class.
unfoldable pub binarize_class : Binarize → List ℤ → List ℤ → Result (List (ℤ × ℤ))
binarize_class self [] ys = err index_error
binarize_class self (t ∷ ts) [] = err index_error
binarize_class self (t ∷ ts) (y ∷ ys) =
    frames_loop self
      (record {
        start = t;
        is_active = ltb_ℤ self.onset y;
        curr_scores = y ∷ [];
        curr_timestamps = t ∷ [];
        t = t;
        regions = [];
      })
      ts ys
    >>= λ b. ok (if b.is_active then put_region self b b.t else b.regions)

-- `__call__`, where no padding and no least duration is asked for: the regions of each class.
unfoldable pub binarize_classes : Binarize → List ℤ → List (List ℤ) → Result (List (List (ℤ × ℤ)))
binarize_classes self ts [] = ok []
binarize_classes self ts (k ∷ ks) =
    binarize_class self ts k >>= λ r. binarize_classes self ts ks >>= λ rs. ok (r ∷ rs)

-- The variables of `merge_chunks`.
pub record Merge : Type 0 where
  pub merged_segments : List Chunk
  pub curr_start : ℤ
  pub curr_end : ℤ
  pub seg_idxs : List (ℤ × ℤ)

abbrev pub close : Merge → List Chunk
close m =
    m.merged_segments
    ++ record { start = m.curr_start; end = m.curr_end; segments = m.seg_idxs } ∷ []

abbrev pub is_full : ℤ → Merge → ℤ × ℤ → Bool
is_full chunk_size m seg =
    ltb_ℤ chunk_size (seg.1 -ℤ m.curr_start) && ltb_ℤ (pos 0) (m.curr_end -ℤ m.curr_start)

abbrev pub add_segment : Merge → ℤ × ℤ → Merge
add_segment m seg = record m { curr_end = seg.1; seg_idxs = m.seg_idxs ++ seg ∷ [] }

-- The body of the loop over the segments.
unfoldable pub merge_segment : ℤ → Merge → ℤ × ℤ → Merge
merge_segment chunk_size m seg =
    add_segment
      (if is_full chunk_size m seg
        then record m { merged_segments = close m; curr_start = seg.0; seg_idxs = [] }
        else m)
      seg

unfoldable pub merge_loop : ℤ → Merge → List (ℤ × ℤ) → List Chunk
merge_loop chunk_size m [] = close m
merge_loop chunk_size m (s ∷ ss) = merge_loop chunk_size (merge_segment chunk_size m s) ss

-- `merge_chunks` behind the call of Binarize, on the timeline of its result.
unfoldable pub merge_timeline : ℤ → List (ℤ × ℤ) → List Chunk
merge_timeline chunk_size [] = []
merge_timeline chunk_size (s ∷ ss) =
    merge_loop chunk_size
      (record { merged_segments = []; curr_start = s.0; curr_end = pos 0; seg_idxs = [] }) (s ∷ ss)

-- What the module takes from its libraries: the scores of the network, for samples at a rate, the
-- timeline of an annotation with these regions per class, the default onset, 0.5, in the unit of the
-- scores, and whether the times of the timeline are Python floats.
pub record VadLib : Type 0 where
  pub apply : List ℤ → ℕ → Scores
  pub get_timeline : List (List (ℤ × ℤ)) → List (ℤ × ℤ)
  pub default_onset : ℤ
  pub is_float : Bool

unfoldable pub merge_chunks : VadLib → Scores → ℤ → Result (List Chunk)
merge_chunks lib scores chunk_size =
    if ltb_ℤ (pos 0) chunk_size
    then (binarize_classes
          (record {
            onset = lib.default_onset;
            offset = lib.default_onset;
            pad_onset = pos 0;
            pad_offset = pos 0;
            max_duration = some chunk_size;
          })
          scores.timestamps scores.classes
        >>= λ rs. ok (merge_timeline chunk_size (lib.get_timeline rs)))
    else err assertion_error

pub record Vad : Type 0 where
  pub max_chunk_size : ℤ
  pub last_time_spoken_offset : ℤ
  pub loaded : Bool

-- The end of the last chunk, where it is a float.
abbrev pub last_time_spoken : VadLib → List Chunk → ℤ
last_time_spoken lib chunks = elim (get_last? chunks) as (λ _. ℤ) [
  | none ↦ pos 0
  | some c ↦ if lib.is_float then c.end else pos 0
]

abbrev pub no_voice : VadLib → Vad → ℤ → List Chunk → Bool
no_voice lib self audio_time [] = true
no_voice lib self audio_time (c ∷ cs) =
    ltb_ℤ (last_time_spoken lib (c ∷ cs)) (audio_time -ℤ self.last_time_spoken_offset)

-- The part of `execute` behind `merge_chunks`.
unfoldable pub decide : VadLib → Vad → Package → AudioData → ℤ → List Chunk → Outcome Vad
decide lib self dp d audio_time chunks =
    let d' = record d { vad_result = some chunks } in
    if no_voice lib self audio_time chunks
    then exiting self (record dp { audio = some d' }) "No voice detected"
    else passing self dp d'

-- `execute` behind its guards.
unfoldable pub detect : VadLib → Vad → Package → AudioData → List ℤ → ℤ → ℕ → Outcome Vad
unfolding decide
detect lib self dp d audio audio_time rate =
    let audio_chunk =
      if ltb_ℤ audio_time self.max_chunk_size then audio_time else self.max_chunk_size in
    elim (merge_chunks lib (lib.apply audio rate) audio_chunk) [
      | err e ↦ raising self dp e
      | ok chunks ↦ decide lib self dp d audio_time chunks
    ]

-- The guards, in their order.
abbrev pub execute_on :
    VadLib → Vad → Package → AudioData → Option (List ℤ) → Option ℤ → Option ℕ → Outcome Vad
execute_on lib self dp d none t r = raising self dp (exception "No audio data found")
execute_on lib self dp d (some a) none r = raising self dp (exception "No audio buffer time found")
execute_on lib self dp d (some a) (some t) none = raising self dp (exception "No sample rate found")
execute_on lib self dp d (some a) (some t) (some r) = detect lib self dp d a t r

unfoldable pub execute : VadLib → Vad → Package → Outcome Vad
execute lib self dp =
    if self.loaded
    then elim dp.audio [
      | none ↦ raising self dp (exception "No data found")
      | some d ↦ execute_on lib self dp d d.audio_data d.audio_buffer_time d.audio_data_sample_rate
    ]
    else raising self dp (exception "Whisper model not loaded")
