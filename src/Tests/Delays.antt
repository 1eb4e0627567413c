-- ===== src/Tests/Delays.antt =====
-- The delays of live words on a small transcript.
use mathlib.Core.List.{Perm}
use live_translation.Base.{
  ℕ, ◌+◌, ◌+ℤ◌, ◌-ℤ◌, pos, ◌≡◌, refl, some, none, List, [], ◌∷◌, ◌++◌, All, ◌==◌, if◌then◌else◌,
  subst,
}
use live_translation.Data.{ok, Word, AudioData}
use live_translation.Ogg.Bytes.{bytes_eq}
use live_translation.ConfirmWords.{TextLib}
use live_translation.LiveStats.Timing.{
  LivePackage, Differences, time_difference, spread, live_loop, live_step, remove_words,
  remove_word, is_similar_word,
}
use live_translation.LiveStats.Found.{
  IsTimedPackage, HasTimes, FirstAt, IsNever, time_difference-FirstAt,
}
use live_translation.LiveStats.Pairs.{Found, words, times}
use live_translation.Tests.Samples.{raw_data}

abbrev pub text : TextLib
text = record {
  lower = λ t. t;
  is_symbol = λ c. c == 46;
  ratio = λ v w. if bytes_eq v w then pos 1_000_000_000 else pos 0;
}

abbrev said : ℕ → ℕ → Word
said letter at = record {
  word = letter ∷ [];
  start = pos at;
  end = pos (at + 2);
  probability = pos 900_000_000;
}

abbrev timed : List Word → AudioData
timed ws = record (raw_data []) {
  confirmed_words = some ws;
  audio_buffer_time = some (pos 30);
  audio_buffer_start_after = some (pos 10);
}

abbrev packages : List LivePackage
packages =
    record { audio = none; start_time = pos 0; end_time = pos 1 }
    ∷ record { audio = some (timed (said 97 11 ∷ [])); start_time = pos 50; end_time = pos 52 }
    ∷ record {
      audio = some (timed (said 97 11 ∷ said 98 20 ∷ []));
      start_time = pos 60;
      end_time = pos 63;
    }
    ∷ []

abbrev transcript : List Word
transcript = said 97 10 ∷ said 98 21 ∷ said 99 30 ∷ []

-- The first word is found in the second package, the second in the third, the last one never.
two_found :
    time_difference text packages transcript (pos 4)
    ≡ ok (
      record { transcript_list = said 99 30 ∷ []; diff = pos 30 ∷ pos 20 ∷ [] },
      spread (pos 30 ∷ pos 20 ∷ []),
    )
unfolding time_difference live_loop live_step remove_words remove_word is_similar_word ◌-ℤ◌ ◌+ℤ◌
two_found = refl

has_times : (ws : List Word) (d : AudioData) → some (timed ws) ≡ some d → HasTimes d
has_times ws d e =
    let same : timed ws ≡ d = cc in
    subst HasTimes same
      (record { start = pos 10; time = pos 30; start_there = refl; time_there = refl })

packages-IsTimedPackage : All IsTimedPackage packages
packages-IsTimedPackage = (
  λ d e. absurd (cc),
  (
    λ d e. has_times (said 97 11 ∷ []) d e,
    (λ d e. has_times (said 97 11 ∷ said 98 20 ∷ []) d e, tt),
  ),
)

time_difference-FirstAt_example :
    (s : Differences) × (found : List Found) × (time_difference text packages transcript (pos 4)
      ≡ ok (s, spread s.diff))
    × (s.diff ≡ times found)
    × Perm (words found ++ s.transcript_list) transcript
    × All (λ e. FirstAt text (pos 4) e.0 e.1 packages) found
    × All (IsNever text (pos 4) packages) s.transcript_list
time_difference-FirstAt_example =
    time_difference-FirstAt text packages transcript (pos 4) packages-IsTimedPackage
