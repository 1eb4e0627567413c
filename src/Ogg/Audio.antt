-- ===== src/Ogg/Audio.antt =====
-- ogg.py, `Ogg_OPUS_Audio`: pages, headers and durations of a stream.
pub mod Collected
pub mod Duration
use live_translation.Base.{
  ℕ, ◌+◌, ◌-◌, ◌%◌, ◌+ℤ◌, ◌-ℤ◌, ℤ, pos, Bool, ◌&&◌, Option, none, some, List, [], ◌∷◌, ◌++◌, ◌==◌,
  if◌then◌else◌,
}
use live_translation.Data.{Bytes, Result, ok, err, index_error, zero_division, ◌>>=◌}
use live_translation.Ogg.Bytes.{starts_with}
use live_translation.Ogg.Page.{OggSPage}
use live_translation.Ogg.Headers.{
  OpusIdHeader, OpusCommentHeader, opus_head, opus_tags, id_header_from_page,
  comment_header_from_pages,
}
use live_translation.Ogg.Split.{split_ogg_data_into_pages}

-- `duration` is in samples, as in the pages.
pub record OggOpusAudio : Type 0 where
  pub ogg_data : Bytes
  pub pages : List OggSPage
  pub id_header : Option OpusIdHeader
  pub comment_header : Option OpusCommentHeader
  pub duration : ℤ

abbrev find_head : List OggSPage → Option OggSPage
find_head [] = none
find_head (p ∷ ps) = if starts_with p.payload opus_head then some p else find_head ps

unfoldable pub extract_id_header : List OggSPage → Result (Option OpusIdHeader)
extract_id_header pages = elim (find_head pages) [
  | none ↦ ok none
  | some page ↦ (id_header_from_page page >>= λ opus_id_header. ok (some opus_id_header))
]

abbrev pub starts_comment : OggSPage → Bool
starts_comment p = p.page_sequence_number == 1 && starts_with p.payload opus_tags

-- The loop while `comment_header_started` is false: the page that starts it, and the pages behind.
unfoldable pub find_tags : List OggSPage → Option (OggSPage × List OggSPage)
find_tags [] = none
find_tags (p ∷ ps) = if starts_comment p then some (p, ps) else find_tags ps

-- The loop behind that page. `header_type & 0x01` is the bit for a continued packet; `none` means
-- that `comment_header_completed` stays false.
unfoldable pub collect : List OggSPage → List OggSPage → Option (List OggSPage)
collect collected [] = none
collect collected (p ∷ ps) =
    let rest = collect (collected ++ p ∷ []) ps in
    if p.header_type % 2 == 0 then some (collected ++ p ∷ []) else rest

unfoldable pub comment_header_pages : List OggSPage → Option (List OggSPage)
comment_header_pages pages = elim (find_tags pages) [
  | none ↦ none
  | some (p, ps) ↦ collect (p ∷ []) ps
]

unfoldable pub extract_comment_header : List OggSPage → Result (Option OpusCommentHeader)
extract_comment_header pages = elim (comment_header_pages pages) [
  | none ↦ ok none
  | some collected ↦ (comment_header_from_pages collected >>= λ h. ok (some h))
]

-- samples = current - previous; duration = samples / sample_rate, here in samples.
unfoldable pub page_duration : ℕ → ℕ → ℕ → Result ℤ
page_duration current_granule_position previous_granule_position sample_rate =
    if sample_rate == 0
    then err zero_division
    else ok (pos current_granule_position -ℤ pos previous_granule_position)

-- The loop over pages[1:], with the pages that it has written to.
unfoldable pub duration_loop : ℕ → ℕ → ℤ → List OggSPage → Result (List OggSPage × ℤ)
duration_loop sample_rate previous complete_duration [] = ok ([], complete_duration)
duration_loop sample_rate previous complete_duration (page ∷ rest) =
    page_duration page.granule_position previous sample_rate >>= λ duration.
    duration_loop sample_rate page.granule_position (complete_duration +ℤ duration) rest >>= λ r.
    ok (record page { duration = duration } ∷ r.0, r.1)

-- The pages with their durations, and the duration of the whole.
unfoldable pub calculate_durations :
    List OggSPage → Option OpusIdHeader → Option OpusCommentHeader → Result (List OggSPage × ℤ)
calculate_durations pages none comment_header = ok (pages, pos 0)
calculate_durations pages (some id_header) none = ok (pages, pos 0)
calculate_durations [] (some id_header) (some comment_header) = err index_error
calculate_durations (first ∷ rest) (some id_header) (some comment_header) =
    duration_loop id_header.input_sample_rate first.granule_position (pos 0) rest >>= λ r.
    ok (first ∷ r.0, r.1)

-- `Ogg_OPUS_Audio(ogg_data)`
unfoldable pub audio_from_bytes : Bytes → Result OggOpusAudio
audio_from_bytes ogg_data = do
  pages ← split_ogg_data_into_pages ogg_data
  id_header ← extract_id_header pages
  comment_header ← extract_comment_header pages
  timed ← calculate_durations pages id_header comment_header
  ok (record {
    ogg_data = ogg_data;
    pages = timed.0;
    id_header = id_header;
    comment_header = comment_header;
    duration = timed.1;
  })

-- The function `calculate_page_duration` of the module.
unfoldable pub calculate_page_duration : ℕ → Option ℕ → ℕ → Result ℤ
unfolding page_duration
calculate_page_duration current none sample_rate = ok (pos 0)
calculate_page_duration current (some previous) sample_rate =
    page_duration current previous sample_rate
