-- ===== src/Ogg/Split/Stream.antt =====
-- The split of a stream of pages that are laid out as documented.
use mathlib.Core.List.{append_assoc}
use live_translation.Base.{
  ℕ, zero, suc, ◌+◌, ◌≤◌, ◌≡◌, refl, sym, ap, ◌∙◌, true, false, List, [], ◌∷◌, ◌++◌, map, arith,
  length, length-drop, length-append, drop, take, take-append, drop-append, drop-drop, some, All,
  ◌-◌,
}
use live_translation.Base.Sort.{sorted-of_IsSorted, IsSorted}
use live_translation.Data.{Bytes, ok}
use live_translation.Ogg.Bytes.{byte_at}
use live_translation.Ogg.Page.Layout.{
  Layout, IsWellFormed, page_bytes, page_of, page_bytes-length, page_from_bytes-page_bytes,
}
use live_translation.Ogg.Split.{
  stops, next_page, split_loop, by_sequence, split_ogg_data_into_pages,
}
use live_translation.Ogg.Split.Rounds.{announced, cut_page-eq, next_page-drop, stops-next_page}

-- The bytes of the pages, one after the other.
abbrev pub stream_bytes : List Layout → Bytes
stream_bytes [] = []
stream_bytes (l ∷ ls) = page_bytes l ++ stream_bytes ls

module _ (l : Layout) (w : IsWellFormed l) (more : Bytes) where
  segments_byte : byte_at (take 27 (page_bytes l ++ more)) 26 ≡ ok (length l.segment_table)
  unfolding page_bytes byte_at
  segments_byte = refl

  goes_on : stops (page_bytes l ++ more) 0 ≡ false
  unfolding page_bytes
  goes_on = ground arith

  body : drop 27 (page_bytes l ++ more) ≡ l.segment_table ++ (l.payload ++ more)
  unfolding page_bytes
  body = append_assoc l.segment_table l.payload more

  announced-length :
      announced (page_bytes l ++ more) (length l.segment_table) ≡ length (page_bytes l)
  unfolding announced
  announced-length =
      let e : 27 + length l.segment_table - 27 ≡ length l.segment_table = omega arith in
      rw (e, body, take-append (length l.segment_table) l.segment_table (l.payload ++ more) refl)
        (omega (arith, page_bytes-length l, w.payload_fits))

  -- A round takes exactly this page.
  next_page-page_bytes :
      next_page (page_bytes l ++ more) 0 ≡ ok (some (page_of l, length (page_bytes l)))
  unfolding next_page
  next_page-page_bytes = rw (
    goes_on,
    segments_byte,
    cut_page-eq (page_bytes l ++ more) (length l.segment_table),
    announced-length,
    take-append (length (page_bytes l)) (page_bytes l) more refl,
    page_from_bytes-page_bytes l w,
  )

split_loop-stream_bytes :
    (fuel : ℕ) (xs : Bytes) (o : ℕ) (ls : List Layout) (rest : Bytes)
    → length xs ≤ o + fuel
    → drop o xs ≡ stream_bytes ls ++ rest
    → All IsWellFormed ls
    → stops rest 0 ≡ true
    → split_loop fuel xs o ≡ ok (map page_of ls)
unfolding split_loop
split_loop-stream_bytes zero xs o [] rest h e w s = refl
split_loop-stream_bytes zero xs o (l ∷ ls) rest h e w s = absurd (
    omega (
      arith,
      length-drop o xs,
      ap length e,
      length-append (page_bytes l ++ stream_bytes ls) rest,
      length-append (page_bytes l) (stream_bytes ls),
      page_bytes-length l,
    ))
split_loop-stream_bytes (suc fuel) xs o [] rest h e w s =
    rw (next_page-drop xs o, e, stops-next_page rest 0 s, split_loop)
split_loop-stream_bytes (suc fuel) xs o (l ∷ ls) rest h e w s =
    let e' : drop o xs ≡ page_bytes l ++ (stream_bytes ls ++ rest) =
      e ∙ append_assoc (page_bytes l) (stream_bytes ls) rest in
    rw (
      next_page-drop xs o,
      e',
      next_page-page_bytes l w.0 (stream_bytes ls ++ rest),
      split_loop,
      split_loop-stream_bytes fuel xs (o + length (page_bytes l)) ls rest
          (omega (arith, page_bytes-length l))
          (sym (drop-drop o (length (page_bytes l)) (o + length (page_bytes l)) xs refl)
            ∙ rw (e')
                (drop-append (length (page_bytes l)) (page_bytes l) (stream_bytes ls ++ rest) refl))
          w.1 s,
    )

-- The concatenation of well-formed pages in the documented layout, in ascending order of their
-- sequence numbers, with bytes behind it that start no page, is split into exactly these pages, each
-- with the fields that were laid out.
pub split-stream_bytes :
    (ls : List Layout) (rest : Bytes)
    → All IsWellFormed ls
    → IsSorted by_sequence (map page_of ls)
    → stops rest 0 ≡ true
    → split_ogg_data_into_pages (stream_bytes ls ++ rest) ≡ ok (map page_of ls)
unfolding split_ogg_data_into_pages
split-stream_bytes ls rest w o s = rw (
  split_loop-stream_bytes (length (stream_bytes ls ++ rest)) (stream_bytes ls ++ rest) 0 ls rest
      (omega arith) refl w s,
  sorted-of_IsSorted by_sequence (map page_of ls) o,
)
