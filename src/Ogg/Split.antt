-- ===== src/Ogg/Split.antt =====
-- ogg.py, `_split_ogg_data_into_pages`: the loop that cuts a stream into pages, and the sort.
pub mod Rounds
pub mod Lossless
pub mod Stream
use live_translation.Base.{
  ℕ, zero, suc, ◌+◌, Bool, not, ◌||◌, List, [], ◌∷◌, Option, none, some, ltb, leb, if◌then◌else◌,
  length, slice,
}
use live_translation.Base.Sort.{sorted}
use live_translation.Data.{Bytes, Result, ok, err, ◌>>=◌}
use live_translation.Ogg.Bytes.{byte_at, bytes_eq, sum}
use live_translation.Ogg.Page.{OggSPage, oggs, new_page}

-- The tests of the `while` and of the `if` that breaks out of it.
abbrev pub stops : Bytes → ℕ → Bool
stops data_ offset =
    let header = slice data_ offset (offset + 27) in
    not (ltb offset (length data_))
    || (ltb (length header) 27 || not (bytes_eq (slice header 0 4) oggs))

abbrev pub sized : ℕ → OggSPage → Result (OggSPage × ℕ)
sized page_size ogg_page = ok (ogg_page, page_size)

-- The body of the loop behind these tests, once the number of segments is read: the page at
-- `offset`, and its size.
unfoldable pub cut_page : Bytes → ℕ → ℕ → Result (OggSPage × ℕ)
cut_page data_ offset page_segments =
    let segment_table = slice data_ (offset + 27) (offset + 27 + page_segments) in
    let page_size = 27 + page_segments + sum segment_table in
    new_page (slice data_ offset (offset + page_size)) >>= sized page_size

-- One round: `none` leaves the loop.
unfoldable pub next_page : Bytes → ℕ → Result (Option (OggSPage × ℕ))
next_page data_ offset =
    if stops data_ offset
    then ok none
    else (byte_at (slice data_ offset (offset + 27)) 26 >>= cut_page data_ offset >>= λ page.
        ok (some page))

-- A page takes 27 bytes or more, so the length of the data is fuel enough.
unfoldable pub split_loop : ℕ → Bytes → ℕ → Result (List OggSPage)
split_loop zero data_ offset = ok []
split_loop (suc fuel) data_ offset = elim (next_page data_ offset) [
  | err e ↦ err e
  | ok none ↦ ok []
  | ok (some (page, page_size)) ↦
      split_loop fuel data_ (offset + page_size) >>= λ rest. ok (page ∷ rest)
]

abbrev pub by_sequence : OggSPage → OggSPage → Bool
by_sequence p q = leb p.page_sequence_number q.page_sequence_number

unfoldable pub split_ogg_data_into_pages : Bytes → Result (List OggSPage)
split_ogg_data_into_pages ogg_data = do
  pages ← split_loop (length ogg_data) ogg_data 0
  ok (sorted by_sequence pages)
