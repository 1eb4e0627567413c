-- ===== src/LiveStats/Timing.antt =====
-- simulate_live_audio_stream.py: how long after it was spoken a word is confirmed, and all statistics
-- together. Means are pairs as in LiveStats; a standard deviation is given by its square.
use live_translation.Base.{
  ℕ, ◌-◌, ◌*◌, ◌+ℤ◌, ◌-ℤ◌, ℤ, pos, Bool, true, false, ◌&&◌, Option, none, some, List, [], ◌∷◌, ◌++◌,
  map, leb_ℤ, keep_if, length, if◌then◌else◌, scale, ltb, get_last?,
}
use live_translation.Data.{Text, Word, AudioData, Result, ok, err, ◌>>=◌, value_error, index_error}
use live_translation.Ogg.Bytes.{bytes_eq}
use live_translation.ConfirmWords.{TextLib, min_similarity, no_limit, eq_ℤ, remove_symbols}
use live_translation.LiveStats.{StatsLib, Statistics, compute_statistics, sum_abs}

-- `_is_similar`
unfoldable pub is_similar_word : TextLib → Text → Text → ℤ → Bool
is_similar_word lib word1 word2 max_diff_percantage =
    let word1_clean = remove_symbols lib (lib.lower word1) in
    let word2_clean = remove_symbols lib (lib.lower word2) in
    if eq_ℤ max_diff_percantage no_limit
    then bytes_eq word1_clean word2_clean
    else leb_ℤ max_diff_percantage (lib.ratio word1_clean word2_clean)

-- A data package of the live run, with its times.
pub record LivePackage : Type 0 where
  pub audio : Option AudioData
  pub start_time : ℤ
  pub end_time : ℤ

abbrev same_place : TextLib → ℤ → Word → Word → Bool
same_place lib offset tword lw =
    (leb_ℤ (lw.start -ℤ offset) tword.start && leb_ℤ tword.start (lw.end +ℤ offset))
    && is_similar_word lib lw.word tword.word min_similarity

-- `next(...) is not None`
abbrev pub is_confirmed : TextLib → ℤ → List Word → Word → Bool
is_confirmed lib offset [] tword = false
is_confirmed lib offset (lw ∷ ws) tword =
    let rest = is_confirmed lib offset ws tword in
    if same_place lib offset tword lw then true else rest

-- `==` of the dataclass.
abbrev pub word_eq : Word → Word → Bool
word_eq v w =
    bytes_eq v.word w.word
    && (eq_ℤ v.start w.start && (eq_ℤ v.end w.end && eq_ℤ v.probability w.probability))

-- `transcript_list.remove(tword)`
unfoldable pub remove_word : List Word → Word → Result (List Word)
remove_word [] w = err (value_error "list.remove(x): x not in list")
remove_word (v ∷ vs) w =
    let rest = remove_word vs w in if word_eq v w then ok vs else (rest >>= λ us. ok (v ∷ us))

-- `for tword in to_remove`
unfoldable pub remove_words : List Word → List Word → Result (List Word)
unfolding remove_word
remove_words ts [] = ok ts
remove_words ts (w ∷ ws) = remove_word ts w >>= λ us. remove_words us ws

-- The two lists that the loop changes.
pub record Differences : Type 0 where
  pub transcript_list : List Word
  pub diff : List ℤ

-- `diff_words_time`
abbrev pub delays : ℤ → List Word → List ℤ
delays output_time ws = map (λ w. output_time -ℤ w.end) ws

-- The part of the loop's body behind the removal.
abbrev pub add_delays : LivePackage → List Word → Option ℤ → Option ℤ → Differences → Differences
add_delays dp ws none t s = s
add_delays dp ws (some a) none s = s
add_delays dp ws (some a) (some t) s =
    let processing_time = dp.end_time -ℤ dp.start_time in
    record s { diff = s.diff ++ delays ((a +ℤ t) +ℤ processing_time) ws }

abbrev pub confirm_live :
    TextLib → ℤ → LivePackage → AudioData → Option (List Word) → Differences → Result Differences
confirm_live lib offset dp d none s = ok s
confirm_live lib offset dp d (some live) s =
    let correct_diff_words = keep_if (is_confirmed lib offset live) s.transcript_list in
    remove_words s.transcript_list correct_diff_words >>= λ rest. ok (
      add_delays dp correct_diff_words d.audio_buffer_start_after d.audio_buffer_time
        (record s { transcript_list = rest }))

-- The body of the loop.
unfoldable pub live_step :
    TextLib → ℤ → LivePackage → Option AudioData → Differences → Result Differences
unfolding remove_words
live_step lib offset dp none s = ok s
live_step lib offset dp (some d) s = confirm_live lib offset dp d d.confirmed_words s

unfoldable pub live_loop : TextLib → ℤ → List LivePackage → Differences → Result Differences
live_loop lib offset [] s = ok s
live_loop lib offset (dp ∷ dps) s =
    live_step lib offset dp dp.audio s >>= λ r. live_loop lib offset dps r

abbrev sum_ℤ : List ℤ → ℤ
sum_ℤ [] = pos 0
sum_ℤ (x ∷ xs) = x +ℤ sum_ℤ xs

abbrev pub sum_squares : List ℤ → ℤ
sum_squares [] = pos 0
sum_squares (x ∷ xs) = pos (sum_abs (x ∷ []) * sum_abs (x ∷ [])) +ℤ sum_squares xs

-- The mean, the variance and the mean absolute deviation of n values: each a numerator over a
-- denominator, n, n (n - 1) and n n; 0 over 0 where there are too few.
pub record Spread : Type 0 where
  pub mean_diff : ℤ × ℕ
  pub variance : ℤ × ℕ
  pub mad : ℕ × ℕ

unfoldable pub spread : List ℤ → Spread
spread diff =
    let n = length diff in
    let s = sum_ℤ diff in
    record {
      mean_diff = (s, n);
      variance =
          if ltb 1 n
          then (
            scale n (sum_squares diff) -ℤ pos (sum_abs (s ∷ []) * sum_abs (s ∷ [])),
            n * (n - 1),
          )
          else (pos 0, 0);
      mad = (sum_abs (map (λ x. scale n x -ℤ s) diff), n * n);
    }

-- What the last line of `time_difference` prints, the words found and left, and what it returns.
unfoldable pub time_difference :
    TextLib → List LivePackage → List Word → ℤ → Result (Differences × Spread)
time_difference lib live_dps transcript offset =
    live_loop lib offset live_dps (record { transcript_list = transcript; diff = [] }) >>= λ s.
    ok (s, spread s.diff)

-- `to_lower_no_symbols`, on each word.
abbrev pub clean_word : TextLib → Word → Word
clean_word lib w = record w { word = remove_symbols lib (lib.lower w.word) }

abbrev pub clean : TextLib → List Word → List Word
clean lib ws = map (clean_word lib) ws

pub record Stats : Type 0 where
  pub diff : Statistics
  pub diff2 : Statistics
  pub times : Spread

abbrev pub compare_words : TextLib → StatsLib → Spread → List Word → List Word → Result Stats
compare_words lib slib times live transcript = compute_statistics slib live transcript >>= λ a.
    compute_statistics slib (clean lib live) (clean lib transcript) >>= λ b.
    ok (record { diff = a; diff2 = b; times = times })

abbrev pub last_words : Option LivePackage → Result (List Word)
last_words none = err index_error
last_words (some dp) = elim dp.audio [
  | none ↦ err (value_error "No data found")
  | some d ↦ elim d.confirmed_words [ none ↦ err (value_error "No data found") | some ws ↦ ok ws ]
]

-- `stats`; the offset of `time_difference` has its default, 0.4 seconds.
unfoldable pub stats : ℕ → TextLib → StatsLib → List LivePackage → List Word → Result Stats
stats tenth lib slib live_dps transcript =
    time_difference lib live_dps transcript (pos (4 * tenth)) >>= λ t.
    last_words (get_last? live_dps) >>= λ live. compare_words lib slib t.1 live transcript
