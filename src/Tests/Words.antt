-- ===== src/Tests/Words.antt =====
-- The confirmation of words on four sample words.
use live_translation.Base.{
  ℕ, pos, ◌≡◌, refl, List, [], ◌∷◌, true, false, some, none, arith, ◌≤◌, length, All, leb_ℤ, ◌+ℤ◌,
  ◌-ℤ◌,
}
use live_translation.Base.Sort.{sorted}
use live_translation.Data.{Word, TextSegment, AudioData}
use live_translation.ConfirmWords.{
  TextLib, ConfirmWords, init, overlaps, is_similar, to_remove, pop_each, remove_overlapping, limit,
  settle, execute, confirm, find_word, words_to_confirm, new_unconfirmed, collect_words,
}
use live_translation.ConfirmWords.Overlaps.{drop_overlaps, remove_overlapping-drop_overlaps}
use live_translation.ConfirmWords.Final.{
  IsFinal, Ready, execute-IsFinal, execute-length, execute-All,
}
use live_translation.Tests.Samples.{raw_data, package_of}

program : Unit {0}
unfolding sorted init overlaps is_similar to_remove pop_each remove_overlapping limit settle execute
    confirm find_word ◌+ℤ◌ ◌-ℤ◌
program = tt

-- Equal texts have the ratio 1, others 0; 46 is the full stop.
abbrev lib : TextLib
lib = record {
  lower = λ t. t;
  is_symbol =
      λ c. elim (Prim.Native.Nat.compare c 46) [ Prim.Native.Nat.Ordering.eq ↦ true | _ ↦ false ];
  ratio = λ s t. pos 0;
}

abbrev word : ℕ → ℕ → ℕ → Word
word text start end = record {
  word = text ∷ [];
  start = pos start;
  end = pos end;
  probability = pos 900_000_000;
}

abbrev doubtful : Word
doubtful = record { word = 120 ∷ []; start = pos 5; end = pos 6; probability = pos 100_000_000 }

abbrev words : List Word
words = word 97 20 30 ∷ word 98 0 10 ∷ doubtful ∷ word 99 90 100 ∷ []

abbrev segment : TextSegment
segment = record { text = []; start = pos 0; end = pos 9; words = some words; probability = none }

abbrev audio : AudioData
audio = record (raw_data []) {
  transcribed_segments = some (segment ∷ []);
  audio_buffer_start_after = some (pos 10);
  audio_buffer_time = some (pos 90);
}

abbrev module_ : ConfirmWords
module_ = record {
  offset = pos 3;
  max_confirmed_words = 50;
  confirm_if_older_then = pos 40;
  confirmed = [];
  confirmed_end_time = pos 0;
}

-- Words that ended 40 before the end of the buffer are confirmed, in order, the doubtful one is not.
execute_runs :
    (execute lib module_ (package_of audio)).state
    ≡ record module_ { confirmed = word 98 0 10 ∷ word 97 20 30 ∷ []; confirmed_end_time = pos 30 }
unfolding program
execute_runs = refl

-- A limit of 0 is no limit.
unlimited : limit 0 words ≡ words
unfolding program
unlimited = refl

remove_overlapping-drop_overlaps_example : remove_overlapping lib words ≡ drop_overlaps lib words
remove_overlapping-drop_overlaps_example = remove_overlapping-drop_overlaps lib words

ready : Ready audio (segment ∷ []) (pos 10) (pos 90)
ready = record { segments_there = refl; start_there = refl; seconds_there = refl }

execute-IsFinal_example : IsFinal (execute lib module_ (package_of audio)).state.confirmed
execute-IsFinal_example =
    execute-IsFinal lib module_ (package_of audio) audio (segment ∷ []) (pos 10) (pos 90) refl ready
      (record { in_order = tt; confident = tt })

execute-length_example : length (execute lib module_ (package_of audio)).state.confirmed ≤ 50
execute-length_example =
    execute-length lib module_ (package_of audio) audio (segment ∷ []) (pos 10) (pos 90) refl ready
      (omega arith) (omega arith)

early_words :
    All
      (λ w. leb_ℤ w.end (pos 60) ≡ true)
      (words_to_confirm module_
        (pos 10 +ℤ pos 90)
        (new_unconfirmed module_ (collect_words (segment ∷ []))))
unfolding program
early_words = (refl, (refl, (refl, tt)))

execute-All_example :
    All (λ w. leb_ℤ w.end (pos 60) ≡ true) (execute lib module_ (package_of audio)).state.confirmed
execute-All_example =
    execute-All lib module_ (package_of audio) audio (segment ∷ []) (pos 10) (pos 90) refl ready
      (λ w. leb_ℤ w.end (pos 60) ≡ true) tt early_words
