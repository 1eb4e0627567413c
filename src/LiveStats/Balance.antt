-- ===== src/LiveStats/Balance.antt =====
-- How many words of the transcript and of the live words the statistics account for.
use live_translation.Base.{
  ℕ, ◌+◌, ◌-◌, ◌≤◌, ◌≡◌, refl, List, [], ◌∷◌, map, arith, length, length-append, length-take,
  length-drop, slice, drop, min, ap,
}
use live_translation.Data.{Word, ok}
use live_translation.LiveStats.{
  Tag, equal, replace, delete, insert, Opcode, StatsLib, Statistics, Tally, zip, paired, apply_tag,
  tally_loop, no_tally, summary, until_last, stripped, compute_statistics, delta_start,
}

-- The lengths of the two sides of an opcode, by its tag.
abbrev pub FitsTag : Tag → Opcode → Type 0
FitsTag equal o = o.i2 - o.i1 ≡ o.j2 - o.j1
FitsTag replace o = Unit
FitsTag delete o = o.j1 ≡ o.j2
FitsTag insert o = o.i1 ≡ o.i2

pub record IsSpan (n m i j : ℕ) (o : Opcode) : Type 0 where
  pub starts_i : o.i1 ≡ i
  pub starts_j : o.j1 ≡ j
  pub up_i : o.i1 ≤ o.i2
  pub up_j : o.j1 ≤ o.j2
  pub in_i : o.i2 ≤ n
  pub in_j : o.j2 ≤ m
  pub fits : FitsTag o.tag o

-- What difflib documents: the opcodes go through both sequences, of n and m items, from the start to
-- the end and without a gap; equal parts are as long on both sides, a deletion has nothing on the
-- second side, and an insertion nothing on the first.
abbrev pub Tiles : ℕ → ℕ → ℕ → ℕ → List Opcode → Type 0
Tiles n m i j [] = (i ≡ n) × (j ≡ m)
Tiles n m i j (o ∷ os) = IsSpan n m i j o × Tiles n m o.i2 o.j2 os

-- The words that the shorter side of a replacement leaves without a partner.
abbrev pub lost_tag : Tag → ℕ → ℕ
lost_tag equal d = 0
lost_tag replace d = d
lost_tag delete d = 0
lost_tag insert d = 0

abbrev pub lost_transcript : List Opcode → ℕ
lost_transcript [] = 0
lost_transcript (o ∷ os) = lost_tag o.tag (o.i2 - o.i1 - (o.j2 - o.j1)) + lost_transcript os

abbrev pub lost_live : List Opcode → ℕ
lost_live [] = 0
lost_live (o ∷ os) = lost_tag o.tag (o.j2 - o.j1 - (o.i2 - o.i1)) + lost_live os

length-zip : (xs ys : List Word) → length (zip xs ys) ≡ min (length xs) (length ys)
length-zip [] ys = omega arith
length-zip (x ∷ xs) [] = omega arith
length-zip (x ∷ xs) (y ∷ ys) = omega (arith, length-zip xs ys)

length-map : {A B : Type 0} → (f : A → B) (xs : List A) → length (map f xs) ≡ length xs
length-map f [] = refl
length-map f (x ∷ xs) = omega (arith, length-map f xs)

length-slice : (xs : List Word) (a b : ℕ) → b ≤ length xs → length (slice xs a b) ≡ b - a
length-slice xs a b h = omega (arith, length-take (b - a) (drop a xs), length-drop a xs)

length-paired :
    (transcript live : List Word) (o : Opcode)
    → o.i2 ≤ length transcript
    → o.j2 ≤ length live
    → length (paired transcript live o) ≡ min (o.i2 - o.i1) (o.j2 - o.j1)
length-paired transcript live o h k = omega (
  arith,
  length-zip (slice transcript o.i1 o.i2) (slice live o.j1 o.j2),
  length-slice transcript o.i1 o.i2 h,
  length-slice live o.j1 o.j2 k,
)

abbrev pub on_transcript : Tally → ℕ
on_transcript t = length t.delta_starts + length t.substitution_list + length t.deletion_list

abbrev pub on_live : Tally → ℕ
on_live t = length t.delta_starts + length t.substitution_list + length t.insertion_list

-- One opcode accounts for its words but those that are lost.
apply_tag-balance :
    (transcript live : List Word) (t : Tally) (o : Opcode) (g : Tag)
    → o.i1 ≤ o.i2
    → o.j1 ≤ o.j2
    → o.i2 ≤ length transcript
    → o.j2 ≤ length live
    → FitsTag g o
    → (on_transcript (apply_tag g transcript live t o) + lost_tag g (o.i2 - o.i1 - (o.j2 - o.j1))
        ≡ on_transcript t + (o.i2 - o.i1))
      × (on_live (apply_tag g transcript live t o) + lost_tag g (o.j2 - o.j1 - (o.i2 - o.i1))
          ≡ on_live t + (o.j2 - o.j1))
apply_tag-balance transcript live t o equal a b h k f =
    let p = length-paired transcript live o h k in
    let q = length-append t.delta_starts (map delta_start (paired transcript live o)) in
    let r = length-map delta_start (paired transcript live o) in
    (omega (arith, p, q, r, f), omega (arith, p, q, r, f))
apply_tag-balance transcript live t o replace a b h k f =
    let p = length-paired transcript live o h k in
    let q = length-append t.substitution_list (paired transcript live o) in
    (omega (arith, p, q), omega (arith, p, q))
apply_tag-balance transcript live t o delete a b h k f =
    let p = length-slice transcript o.i1 o.i2 h in
    let q = length-append t.deletion_list (slice transcript o.i1 o.i2) in
    (omega (arith, p, q, f), omega (arith, f))
apply_tag-balance transcript live t o insert a b h k f =
    let p = length-slice live o.j1 o.j2 k in
    let q = length-append t.insertion_list (slice live o.j1 o.j2) in
    (omega (arith, f), omega (arith, p, q, f))

tally_loop-balance :
    (transcript live : List Word) (t : Tally) (i j : ℕ) (os : List Opcode)
    → Tiles (length transcript) (length live) i j os
    → (on_transcript (tally_loop transcript live t os) + lost_transcript os + i
        ≡ on_transcript t + length transcript)
      × (on_live (tally_loop transcript live t os) + lost_live os + j ≡ on_live t + length live)
unfolding tally_loop
tally_loop-balance transcript live t i j [] h = (omega (arith, h.0), omega (arith, h.1))
tally_loop-balance transcript live t i j (o ∷ os) h =
    let s = h.0 in
    let b = apply_tag-balance transcript live t o o.tag s.up_i s.up_j s.in_i s.in_j s.fits in
    let r =
      tally_loop-balance transcript live (apply_tag o.tag transcript live t o) o.i2 o.j2 os h.1 in
    (omega (arith, b.0, r.0, s.starts_i, s.up_i), omega (arith, b.1, r.1, s.starts_j, s.up_j))

-- On live words and a transcript that are not empty, and with opcodes as difflib documents them,
-- the statistics are computed, and they account for all words but those that a replacement of
-- unequal length leaves over: the words of the transcript up to the last live word are the matched
-- ones, the substitutions, the deletions and those left over on their side, and the live words are
-- the matched ones, the substitutions, the insertions and those left over on theirs.
pub compute_statistics-balance :
    (lib : StatsLib) (l t : Word) (ls ts : List Word) (os : List Opcode)
    → lib.get_opcodes (stripped lib (until_last l ls (t ∷ ts))) (stripped lib (l ∷ ls)) ≡ os
    → Tiles (length (until_last l ls (t ∷ ts))) (length (l ∷ ls)) 0 0 os
    → (s : Statistics) × (compute_statistics lib (l ∷ ls) (t ∷ ts) ≡ ok s)
      × (s.wer.1
          ≡ s.avg_delta_start.1 + length s.substitutions + length s.deletions + lost_transcript os)
      × (length (l ∷ ls)
          ≡ s.avg_delta_start.1 + length s.substitutions + length s.insertions + lost_live os)
unfolding compute_statistics
compute_statistics-balance lib l t ls ts os e h =
    let cut = until_last l ls (t ∷ ts) in
    let b = tally_loop-balance cut (l ∷ ls) no_tally 0 0 os h in
    let n = length-map (λ w. lib.strip w.word) cut in
    (
      summary (length (stripped lib cut)) (tally_loop cut (l ∷ ls) no_tally os),
      ap (λ x. ok (summary (length (stripped lib cut)) (tally_loop cut (l ∷ ls) no_tally x))) e,
      omega (arith, b.0, n),
      omega (arith, b.1),
    )
