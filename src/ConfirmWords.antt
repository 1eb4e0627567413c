-- ===== src/ConfirmWords.antt =====
-- m_confirm_words.py: the module that decides which transcribed words are final.
pub mod Overlaps
pub mod Final
use live_translation.Base.{
  ℕ, zero, suc, ◌-◌, ◌+◌, ◌+ℤ◌, ◌-ℤ◌, ℤ, pos, negsuc, Bool, true, false, not, ◌&&◌, Option, none,
  some, List, [], ◌∷◌, ◌++◌, map, ltb, ltb_ℤ, leb_ℤ, ◌==◌, if◌then◌else◌, length, drop, get_last?,
  keep_if,
}
use live_translation.Base.Sort.{sorted}
use live_translation.Data.{
  Text, Word, TextSegment, AudioData, Package, Outcome, Error, exception, raising, passing,
}
use live_translation.Ogg.Bytes.{bytes_eq}

-- What the module takes from Python's libraries: `str.lower`, whether `unicodedata.category` starts
-- with P or S, and `difflib.SequenceMatcher(None, a, b).ratio()`, in the unit of the probabilities.
pub record TextLib : Type 0 where
  pub lower : Text → Text
  pub is_symbol : ℕ → Bool
  pub ratio : Text → Text → ℤ

-- Probabilities and ratios count billionths: 0.2, 0.7, and the -1.0 that stands for "not given".
abbrev pub min_probability : ℤ
min_probability = pos 200_000_000

abbrev pub min_similarity : ℤ
min_similarity = pos 700_000_000

abbrev pub no_limit : ℤ
no_limit = negsuc 999_999_999

pub record ConfirmWords : Type 0 where
  pub offset : ℤ
  pub max_confirmed_words : ℕ
  pub confirm_if_older_then : ℤ
  pub confirmed : List Word
  pub confirmed_end_time : ℤ

-- `Confirm_Words(offset, max_confirmed_words, confirm_if_older_then)`
unfoldable pub init : ℤ → ℕ → ℤ → ConfirmWords
init offset max_confirmed_words confirm_if_older_then = record {
  offset = offset;
  max_confirmed_words = max_confirmed_words;
  confirm_if_older_then = confirm_if_older_then;
  confirmed = [];
  confirmed_end_time = pos 0;
}

abbrev pub eq_ℤ : ℤ → ℤ → Bool
eq_ℤ a b = leb_ℤ a b && leb_ℤ b a

abbrev pub remove_symbols : TextLib → Text → Text
remove_symbols lib word = keep_if (λ c. not (lib.is_symbol c)) word

unfoldable pub is_similar : TextLib → Text → Text → ℤ → Bool
is_similar lib word1 word2 max_diff_percantage =
    let word1_clean = remove_symbols lib (lib.lower word1) in
    let word2_clean = remove_symbols lib (lib.lower word2) in
    if eq_ℤ max_diff_percantage no_limit
    then bytes_eq word1_clean word2_clean
    else leb_ℤ max_diff_percantage (lib.ratio word1_clean word2_clean)

abbrev abs_le : ℤ → ℤ → Bool
abs_le a b = leb_ℤ a b && leb_ℤ (pos 0 -ℤ a) b

unfoldable pub find_word : ℤ → ℤ → List Word → ℤ → Option Word
find_word start end [] offset = none
find_word start end (w ∷ ws) offset =
    if abs_le (w.start -ℤ start) offset && abs_le (w.end -ℤ end) offset
    then some w
    else find_word start end ws offset

-- new_words
abbrev pub collect_words : List TextSegment → List Word
collect_words [] = []
collect_words (s ∷ ss) = elim s.words [ none ↦ collect_words ss | some ws ↦ ws ++ collect_words ss ]

-- The words of step 1 that do not start before the confirmed time: `new_unconfirmed`.
abbrev pub new_unconfirmed : ConfirmWords → List Word → List Word
new_unconfirmed self = keep_if (λ w. not (ltb_ℤ w.start (self.confirmed_end_time -ℤ self.offset)))

-- The words of step 2: `words_to_confirm`.
abbrev pub words_to_confirm : ConfirmWords → ℤ → List Word → List Word
words_to_confirm self now = keep_if (λ w. leb_ℤ self.confirm_if_older_then (now -ℤ w.end))

abbrev pub by_start : Word → Word → Bool
by_start v w = leb_ℤ v.start w.start

abbrev pub is_confident : Word → Bool
is_confident w = leb_ℤ min_probability w.probability

-- The test of the loop over neighbours.
unfoldable pub overlaps : TextLib → Word → Word → Bool
overlaps lib v w = ltb_ℤ w.start v.end && is_similar lib v.word w.word min_similarity

-- `for i in range(len(self._confirmed) - 1)`, from `i` on: the indices to remove. The assignment to
-- `i` in the body has no effect on the loop.
unfoldable pub to_remove : TextLib → ℕ → List Word → List ℕ
to_remove lib i [] = []
to_remove lib i (v ∷ []) = []
to_remove lib i (v ∷ w ∷ ws) =
    let rest = to_remove lib (i + 1) (w ∷ ws) in if overlaps lib v w then i ∷ rest else rest

-- `self._confirmed.pop(i)`
abbrev pub remove_at : ℕ → List Word → List Word
remove_at i [] = []
remove_at zero (w ∷ ws) = ws
remove_at (suc i) (w ∷ ws) = w ∷ remove_at i ws

-- `while len(to_remove_list) > 0`, on as many rounds as the list has entries.
unfoldable pub pop_each : ℕ → List ℕ → List Word → List Word
pop_each zero is ws = ws
pop_each (suc n) [] ws = ws
pop_each (suc n) (i ∷ is) ws = pop_each n (map (λ x. x - 1) is) (remove_at i ws)

unfoldable pub remove_overlapping : TextLib → List Word → List Word
remove_overlapping lib ws =
    let to_remove_list = to_remove lib 0 ws in pop_each (length to_remove_list) to_remove_list ws

-- `if len(ws) > n: ws = ws[-n:]`; the slice from -0 is the whole list.
unfoldable pub limit : ℕ → List Word → List Word
limit n ws = if ltb n (length ws) then (if n == 0 then ws else drop (length ws - n) ws) else ws

-- What the words are filtered, sorted and cut to, from the appends of step 2 on.
unfoldable pub settle : TextLib → ℕ → List Word → List Word
unfolding limit remove_overlapping
settle lib n ws = limit n (remove_overlapping lib (sorted by_start (keep_if is_confident ws)))

-- `_confirmed_end_time`, after the words have been cut.
abbrev pub end_time : ℤ → List Word → ℤ
end_time t ws = elim (get_last? ws) [ none ↦ t | some w ↦ w.end ]

abbrev pub write_words : AudioData → List Word → List Word → AudioData
write_words d confirmed unconfirmed = record d {
  confirmed_words = some confirmed;
  unconfirmed_words = some unconfirmed;
}

-- `execute` with new words, at the time `now` where the buffer ends.
unfoldable pub confirm :
    TextLib → ConfirmWords → Package → AudioData → ℤ → List Word → Outcome ConfirmWords
unfolding settle
confirm lib self dp d now [] = passing self dp (write_words d self.confirmed [])
confirm lib self dp d now (w ∷ ws) =
    let unconfirmed = new_unconfirmed self (w ∷ ws) in
    let settled =
      settle lib self.max_confirmed_words
        (self.confirmed ++ words_to_confirm self now unconfirmed) in
    let final = limit self.max_confirmed_words settled in
    passing
      (record self {
        confirmed = final;
        confirmed_end_time = end_time self.confirmed_end_time settled;
      })
      dp (write_words d final unconfirmed)

-- The guards, in their order.
abbrev pub execute_times :
    TextLib
    → ConfirmWords
    → Package
    → AudioData
    → List TextSegment
    → Option ℤ
    → Option ℤ
    → Outcome ConfirmWords
execute_times lib self dp d segments none t =
    raising self dp (exception "No audio buffer start time found")
execute_times lib self dp d segments (some s) none =
    raising self dp (exception "No audio buffer time found")
execute_times lib self dp d segments (some s) (some t) =
    confirm lib self dp d (s +ℤ t) (collect_words segments)

abbrev pub execute_segments :
    TextLib → ConfirmWords → Package → AudioData → Option (List TextSegment) → Outcome ConfirmWords
execute_segments lib self dp d none = raising self dp (exception "No transcribed words found")
execute_segments lib self dp d (some segments) =
    execute_times lib self dp d segments d.audio_buffer_start_after d.audio_buffer_time

abbrev pub execute_on : TextLib → ConfirmWords → Package → Option AudioData → Outcome ConfirmWords
execute_on lib self dp none = raising self dp (exception "No transcribed words found")
execute_on lib self dp (some d) = execute_segments lib self dp d d.transcribed_segments

unfoldable pub execute : TextLib → ConfirmWords → Package → Outcome ConfirmWords
unfolding confirm
execute lib self dp = execute_on lib self dp dp.audio
