-- ===== src/LiveStats.antt =====
-- simulate_live_audio_stream.py: the comparison of live words with a transcript. Quotients stay pairs
-- of a numerator and a denominator, and are 0 where the denominator is 0.
pub mod Balance
pub mod Timing
pub mod Counted
pub mod Pairs
pub mod Found
use live_translation.Base.{
  ℕ, ◌+◌, ◌-ℤ◌, ℤ, Bool, List, [], ◌∷◌, ◌++◌, map, leb_ℤ, keep_if, length, slice, pos_part,
  neg_part,
}
use live_translation.Data.{Text, Word, Result, ok, err, value_error}

pub data Tag : Type 0 where
  equal replace delete insert : Tag

-- An entry of `SequenceMatcher.get_opcodes()`.
pub record Opcode : Type 0 where
  pub tag : Tag
  pub i1 : ℕ
  pub i2 : ℕ
  pub j1 : ℕ
  pub j2 : ℕ

-- `str.strip` and `difflib.SequenceMatcher(None, a, b).get_opcodes()`
pub record StatsLib : Type 0 where
  pub strip : Text → Text
  pub get_opcodes : List Text → List Text → List Opcode

pub record Statistics : Type 0 where
  pub deletions : List Word
  pub substitutions : List (Word × Word)
  pub insertions : List Word
  pub wer : ℕ × ℕ
  pub avg_delta_start : ℕ × ℕ
  pub avg_delta_end : ℕ × ℕ

-- The lists that the loop over the opcodes fills.
pub record Tally : Type 0 where
  pub deletion_list : List Word
  pub substitution_list : List (Word × Word)
  pub insertion_list : List Word
  pub delta_starts : List ℤ
  pub delta_ends : List ℤ

-- `zip`, which stops with the shorter list.
abbrev pub zip : List Word → List Word → List (Word × Word)
zip [] ys = []
zip (x ∷ xs) [] = []
zip (x ∷ xs) (y ∷ ys) = (x, y) ∷ zip xs ys

abbrev pub delta_start : Word × Word → ℤ
delta_start p = p.1.start -ℤ p.0.start

abbrev pub delta_end : Word × Word → ℤ
delta_end p = p.1.end -ℤ p.0.end

-- The words that an opcode pairs, of the transcript and of the live words; its indices lie in both.
abbrev pub paired : List Word → List Word → Opcode → List (Word × Word)
paired transcript live o = zip (slice transcript o.i1 o.i2) (slice live o.j1 o.j2)

-- The body of the loop, by the tag.
abbrev pub apply_tag : Tag → List Word → List Word → Tally → Opcode → Tally
apply_tag equal transcript live t o = record t {
  delta_starts = t.delta_starts ++ map delta_start (paired transcript live o);
  delta_ends = t.delta_ends ++ map delta_end (paired transcript live o);
}
apply_tag replace transcript live t o = record t {
  substitution_list = t.substitution_list ++ paired transcript live o;
}
apply_tag delete transcript live t o = record t {
  deletion_list = t.deletion_list ++ slice transcript o.i1 o.i2;
}
apply_tag insert transcript live t o = record t {
  insertion_list = t.insertion_list ++ slice live o.j1 o.j2;
}

unfoldable pub tally_loop : List Word → List Word → Tally → List Opcode → Tally
tally_loop transcript live t [] = t
tally_loop transcript live t (o ∷ os) =
    tally_loop transcript live (apply_tag o.tag transcript live t o) os

abbrev pub no_tally : Tally
no_tally = record {
  deletion_list = [];
  substitution_list = [];
  insertion_list = [];
  delta_starts = [];
  delta_ends = [];
}

-- sum(abs(d) for d in ds)
abbrev pub sum_abs : List ℤ → ℕ
sum_abs [] = 0
sum_abs (d ∷ ds) = pos_part d + neg_part d + sum_abs ds

abbrev pub summary : ℕ → Tally → Statistics
summary n t = record {
  deletions = t.deletion_list;
  substitutions = t.substitution_list;
  insertions = t.insertion_list;
  wer = (length t.substitution_list + length t.deletion_list + length t.insertion_list, n);
  avg_delta_start = (sum_abs t.delta_starts, length t.delta_starts);
  avg_delta_end = (sum_abs t.delta_ends, length t.delta_ends);
}

abbrev pub last_word : Word → List Word → Word
last_word w [] = w
last_word w (v ∷ ws) = last_word v ws

-- The words of the transcript up to the last live word.
abbrev pub until_last : Word → List Word → List Word → List Word
until_last l ls transcript = keep_if (λ w. leb_ℤ w.end (last_word l ls).end) transcript

abbrev pub stripped : StatsLib → List Word → List Text
stripped lib ws = map (λ w. lib.strip w.word) ws

unfoldable pub compute_statistics : StatsLib → List Word → List Word → Result Statistics
compute_statistics lib [] transcript = err (value_error "The 'live' list is empty")
compute_statistics lib (l ∷ ls) [] = err (value_error "The 'transcript' list is empty")
compute_statistics lib (l ∷ ls) (t ∷ ts) =
    let new_transcript = until_last l ls (t ∷ ts) in
    ok (
      summary (length (stripped lib new_transcript)) (
        tally_loop new_transcript (l ∷ ls) no_tally
          (lib.get_opcodes (stripped lib new_transcript) (stripped lib (l ∷ ls)))))
