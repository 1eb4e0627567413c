-- ===== src/Ogg/Split/Lossless.antt =====
-- The pages of a split stream against the bytes that they come from.
use mathlib.Core.List.{Perm, append_assoc}
use live_translation.Base.{
  ℕ, zero, suc, ◌+◌, ◌≤◌, ◌≡◌, refl, ◌∙◌, true, false, List, [], ◌∷◌, ◌++◌, arith, length,
  length-drop, drop, drop-drop, take-append-drop, some, inl, inr,
}
use live_translation.Base.Sort.{sorted, sorted-perm, sorted-IsSorted, IsSorted}
use live_translation.Data.{Bytes, ok}
use live_translation.Ogg.Page.{OggSPage}
use live_translation.Ogg.Split.{
  stops, next_page, split_loop, by_sequence, split_ogg_data_into_pages,
}
use live_translation.Ogg.Split.Rounds.{Found, next_page_cases}

-- b''.join(page.raw_data for page in pages)
abbrev pub join_raw : List OggSPage → Bytes
join_raw [] = []
join_raw (p ∷ ps) = p.raw_data ++ join_raw ps

-- What the loop returns for the data behind `o`.
pub record Cut (fuel : ℕ) (xs : Bytes) (o : ℕ) : Type 0 where
  pub pages : List OggSPage
  pub rest : Bytes
  pub result : split_loop fuel xs o ≡ ok pages
  pub whole : join_raw pages ++ rest ≡ drop o xs
  pub ended : stops rest 0 ≡ true

stops-empty : (xs : Bytes) → length xs ≤ 0 → stops xs 0 ≡ true
stops-empty [] h = refl
stops-empty (x ∷ xs) h = absurd (omega arith)

-- One round before what the later rounds return.
Cut-next :
    (fuel : ℕ) (xs : Bytes) (o : ℕ) (f : Found (drop o xs))
    → next_page xs o ≡ ok (some (f.page, f.size))
    → Cut fuel xs (o + f.size)
    → Cut (suc fuel) xs o
unfolding split_loop
Cut-next fuel xs o f e c = record {
  pages = f.page ∷ c.pages;
  rest = c.rest;
  result = rw (e, split_loop, c.result);
  whole =
      append_assoc f.page.raw_data (join_raw c.pages) c.rest
      ∙ rw (c.whole, f.raw, ← drop-drop o f.size (o + f.size) xs refl)
          (take-append-drop f.size (drop o xs));
  ended = c.ended;
}

pub split_loop-Cut : (fuel : ℕ) (xs : Bytes) (o : ℕ) → length xs ≤ o + fuel → Cut fuel xs o
unfolding split_loop
split_loop-Cut zero xs o h = record {
  pages = [];
  rest = drop o xs;
  result = refl;
  whole = refl;
  ended = stops-empty (drop o xs) (omega (arith, length-drop o xs));
}
split_loop-Cut (suc fuel) xs o h = elim (next_page_cases xs o) [
  | inl (e, s) ↦ record {
    pages = [];
    rest = drop o xs;
    result = rw (e, split_loop);
    whole = refl;
    ended = s;
  }
  | inr (f, e) ↦
      Cut-next fuel xs o f e (split_loop-Cut fuel xs (o + f.size) (omega (arith, f.positive)))
]

by_sequence_total : (p q : OggSPage) → by_sequence p q ≡ false → by_sequence q p ≡ true
by_sequence_total p q h = ground arith

by_sequence_trans :
    (p q r : OggSPage) → by_sequence p q ≡ true → by_sequence q r ≡ true → by_sequence p r ≡ true
by_sequence_trans p q r h k = ground arith

-- The pages of a stream, whatever bytes it is made of: in order of their sequence numbers they are
-- the pages in the order of the data, whose raw bytes are the data up to the first place without a
-- whole header.
pub record Split (ogg_data : Bytes) (pages : List OggSPage) : Type 0 where
  pub in_order : List OggSPage
  pub rest : Bytes
  pub moved : Perm pages in_order
  pub ordered : IsSorted by_sequence pages
  pub whole : join_raw in_order ++ rest ≡ ogg_data
  pub ended : stops rest 0 ≡ true

-- For any bytes `_split_ogg_data_into_pages` raises nothing, and returns pages in ascending order of
-- their sequence numbers that are a permutation of pages whose raw bytes, joined, are a prefix of the
-- data; the loop's test fails on the bytes behind that prefix.
pub split_ogg_data_into_pages-Split :
    (ogg_data : Bytes)
    → (pages : List OggSPage) × (split_ogg_data_into_pages ogg_data ≡ ok pages)
      × Split ogg_data pages
unfolding split_ogg_data_into_pages
split_ogg_data_into_pages-Split ogg_data =
    let c = split_loop-Cut (length ogg_data) ogg_data 0 (omega arith) in
    (
      sorted by_sequence c.pages,
      rw c.result,
      record {
        in_order = c.pages;
        rest = c.rest;
        moved = sorted-perm by_sequence c.pages;
        ordered = sorted-IsSorted by_sequence by_sequence_total by_sequence_trans c.pages;
        whole = c.whole;
        ended = c.ended;
      },
    )
