-- ===== src/Tests/Ogg.antt =====
-- The reading of pages, headers and streams, on the sample pages.
use live_translation.Base.{
  ℕ, ◌≡◌, refl, ◌++◌, List, [], ◌∷◌, map, ℤ, pos, negsuc, arith, some, ◌-ℤ◌, ◌+ℤ◌,
}
use live_translation.Base.Sort.{sorted}
use live_translation.Data.{Bytes, Result, ok, err}
use live_translation.Ogg.Bytes.{little, IsBytes, byte_at, int_from_bytes}
use live_translation.Ogg.Page.{OggSPage, new_page, page_from_bytes}
use live_translation.Ogg.Page.Layout.{
  Layout, IsWellFormed, page_bytes, page_of, page_from_bytes-page_bytes,
}
use live_translation.Ogg.Page.Bounds.{InRange, page_from_bytes-InRange}
use live_translation.Ogg.Split.{split_ogg_data_into_pages, split_loop, next_page, cut_page}
use live_translation.Ogg.Split.Lossless.{Split, split_ogg_data_into_pages-Split}
use live_translation.Ogg.Split.Stream.{stream_bytes, split-stream_bytes}
use live_translation.Ogg.Utf8.{decode}
use live_translation.Ogg.Headers.{
  OpusIdHeader, OpusCommentHeader, id_header_from_page, comment_header_from_pages,
  signed_from_bytes, read_tags, read_comments, read_comment,
}
use live_translation.Ogg.Headers.Comments.{Encoded, comment_header_from_pages-comment_bytes}
use live_translation.Ogg.Audio.{
  OggOpusAudio, audio_from_bytes, extract_id_header, extract_comment_header, comment_header_pages,
  find_tags, collect, calculate_durations, duration_loop, page_duration,
}
use live_translation.Ogg.Audio.Collected.{IsCommentRun, comment_header_pages-IsCommentRun}
use live_translation.Ogg.Audio.Duration.{sum_durations, calculate_durations_total}
use live_translation.Tests.Samples.{id_page, tags_page, audio_page}

-- All of ogg.py, to run it.
program : Unit {0}
unfolding page_from_bytes byte_at int_from_bytes page_bytes page_of split_ogg_data_into_pages
    split_loop next_page cut_page sorted decode id_header_from_page comment_header_from_pages
    signed_from_bytes read_tags read_comments read_comment audio_from_bytes extract_id_header
    extract_comment_header comment_header_pages find_tags collect calculate_durations duration_loop
    page_duration ◌-ℤ◌ ◌+ℤ◌
program = tt

abbrev stream : List Layout
stream = id_page ∷ tags_page ∷ audio_page 2 960 ∷ audio_page 3 1920 ∷ []

-- The pages come in another order than they are numbered in.
abbrev shuffled : Bytes
shuffled = stream_bytes (tags_page ∷ id_page ∷ audio_page 3 1920 ∷ audio_page 2 960 ∷ []) ++ 79 ∷ []

split_runs : split_ogg_data_into_pages shuffled ≡ ok (map page_of stream)
unfolding program
split_runs = refl

rate_of : Result OggOpusAudio → Result ℕ
rate_of (err e) = err e
rate_of (ok a) = elim a.id_header [ some h ↦ ok h.input_sample_rate | _ ↦ ok 0 ]

audio_runs : rate_of (audio_from_bytes shuffled) ≡ ok 48000
unfolding program rate_of
audio_runs = refl

id_page-IsWellFormed : IsWellFormed id_page
id_page-IsWellFormed = omega arith

page_from_bytes-page_bytes_example : new_page (page_bytes id_page) ≡ ok (page_of id_page)
page_from_bytes-page_bytes_example = page_from_bytes-page_bytes id_page id_page-IsWellFormed

id_page-IsBytes : IsBytes (page_bytes id_page)
unfolding page_bytes
id_page-IsBytes = omega arith

page_from_bytes-InRange_example : InRange (page_of id_page)
page_from_bytes-InRange_example =
    page_from_bytes-InRange little (page_bytes id_page) id_page-IsBytes (page_of id_page)
      (page_from_bytes-page_bytes id_page id_page-IsWellFormed)

split_ogg_data_into_pages-Split_example :
    (pages : List OggSPage) × (split_ogg_data_into_pages shuffled ≡ ok pages) × Split shuffled pages
split_ogg_data_into_pages-Split_example = split_ogg_data_into_pages-Split shuffled

split-stream_bytes_example :
    split_ogg_data_into_pages (stream_bytes stream ++ 79 ∷ []) ≡ ok (map page_of stream)
unfolding page_of
split-stream_bytes_example =
    split-stream_bytes stream (79 ∷ []) (omega arith)
      ((refl, (refl, (refl, tt))), ((refl, (refl, tt)), ((refl, tt), (tt, tt)))) refl

abbrev vendor : Encoded
vendor = record { raw = 97 ∷ 98 ∷ []; text = 97 ∷ 98 ∷ [] }

abbrev comment : Encoded
comment = record { raw = 99 ∷ []; text = 99 ∷ [] }

abbrev tags : List OggSPage
tags = page_of tags_page ∷ []

comment_header_from_pages-comment_bytes_example :
    comment_header_from_pages tags
    ≡ ok (record {
      pages = tags;
      vendor_string_length = 2;
      vendor_string = 97 ∷ 98 ∷ [];
      user_comments = (99 ∷ []) ∷ [];
    })
unfolding page_of decode
comment_header_from_pages-comment_bytes_example =
    comment_header_from_pages-comment_bytes tags vendor (comment ∷ []) []
      (record { fits = omega arith; decodes = refl })
      (record { fits = omega arith; decodes = refl }, tt) (omega arith) refl

abbrev pages : List OggSPage
pages = map page_of stream

comment_header_pages-IsCommentRun_example :
    IsCommentRun pages (page_of tags_page ∷ page_of (audio_page 2 960) ∷ [])
unfolding program
comment_header_pages-IsCommentRun_example =
    comment_header_pages-IsCommentRun pages (page_of tags_page ∷ page_of (audio_page 2 960) ∷ [])
      refl

abbrev id_header : OpusIdHeader
id_header = record {
  page = page_of id_page;
  version = 1;
  channel_count = 2;
  pre_skip = 312;
  input_sample_rate = 48000;
  output_gain = negsuc 255;
  mapping_family = 0;
  optional_mapping_table = [];
}

id_header_runs : id_header_from_page (page_of id_page) ≡ ok id_header
unfolding program
id_header_runs = refl

abbrev comment_header : OpusCommentHeader
comment_header = record {
  pages = tags;
  vendor_string_length = 2;
  vendor_string = 97 ∷ 98 ∷ [];
  user_comments = (99 ∷ []) ∷ [];
}

abbrev later_pages : List OggSPage
later_pages = page_of tags_page ∷ page_of (audio_page 2 960) ∷ page_of (audio_page 3 1920) ∷ []

calculate_durations_total_example :
    (timed : List OggSPage) × (total : ℤ) × (calculate_durations
        (page_of id_page ∷ later_pages)
        (some id_header)
        (some comment_header)
      ≡ ok (page_of id_page ∷ timed, total))
    × (total ≡ pos 1920 -ℤ pos 0)
    × (total ≡ sum_durations timed)
unfolding page_of
calculate_durations_total_example =
    calculate_durations_total (page_of id_page) later_pages id_header comment_header (omega arith)
