-- ===== src/Tests/Stats.antt =====
-- Statistics of two live words against a transcript of three.
use live_translation.Base.{ℕ, pos, ◌≡◌, refl, ◌+◌, List, [], ◌∷◌, arith, length, ◌-ℤ◌}
use live_translation.Data.{Word, ok}
use live_translation.LiveStats.{
  equal, replace, Opcode, StatsLib, Statistics, compute_statistics, tally_loop,
}
use live_translation.LiveStats.Balance.{
  Tiles, lost_transcript, lost_live, compute_statistics-balance,
}

abbrev word : ℕ → ℕ → Word
word text end = record { word = text ∷ []; start = pos 0; end = pos end; probability = pos 9 }

abbrev opcodes : List Opcode
opcodes =
    record { tag = equal; i1 = 0; i2 = 1; j1 = 0; j2 = 1 }
    ∷ record { tag = replace; i1 = 1; i2 = 3; j1 = 1; j2 = 2 }
    ∷ []

abbrev lib : StatsLib
lib = record { strip = λ t. t; get_opcodes = λ a b. opcodes }

abbrev later : List Word
later = word 98 2 ∷ word 99 3 ∷ word 100 9 ∷ []

-- The third word of the transcript has no partner, and the fourth comes after the last live word.
one_lost :
    compute_statistics lib (word 97 1 ∷ word 120 3 ∷ []) (word 97 1 ∷ later)
    ≡ ok (record {
      deletions = [];
      substitutions = (word 98 2, word 120 3) ∷ [];
      insertions = [];
      wer = (1, 3);
      avg_delta_start = (0, 1);
      avg_delta_end = (0, 1);
    })
unfolding compute_statistics tally_loop ◌-ℤ◌
one_lost = refl

tiled : Tiles 3 2 0 0 opcodes
tiled = (
  record {
    starts_i = refl;
    starts_j = refl;
    up_i = omega arith;
    up_j = omega arith;
    in_i = omega arith;
    in_j = omega arith;
    fits = refl;
  },
  (
    record {
      starts_i = refl;
      starts_j = refl;
      up_i = omega arith;
      up_j = omega arith;
      in_i = omega arith;
      in_j = omega arith;
      fits = tt;
    },
    (refl, refl),
  ),
)

compute_statistics-balance_example :
    (s : Statistics) × (compute_statistics lib (word 97 1 ∷ word 120 3 ∷ []) (word 97 1 ∷ later)
      ≡ ok s)
    × (s.wer.1
        ≡ s.avg_delta_start.1
          + length s.substitutions
          + length s.deletions
          + lost_transcript opcodes)
    × (2 ≡ s.avg_delta_start.1 + length s.substitutions + length s.insertions + lost_live opcodes)
compute_statistics-balance_example =
    compute_statistics-balance lib (word 97 1) (word 97 1) (word 120 3 ∷ []) later opcodes refl
      tiled
