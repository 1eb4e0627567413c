-- ===== src/AudioBuffer.antt =====
-- m_create_audio_buffer.py: the module that collects Ogg pages into a window of the last seconds.
-- Durations and times are counted in samples, so `seconds >= n` is `samples >= n * sample_rate`.
pub mod Timing
pub mod Window
pub mod Calls
use live_translation.Base.{
  ℕ, ◌+◌, ◌+ℤ◌, ◌-ℤ◌, ℤ, pos, scale, Bool, true, false, ◌&&◌, Option, none, some, List, [], ◌∷◌,
  ◌++◌, ltb_ℤ, leb_ℤ, if◌then◌else◌, get_last?, ◌*◌, map,
}
use live_translation.Data.{
  Bytes, Result, ok, err, Error, exception, index_error, AudioData, Package, Outcome, raising,
  exiting, passing, ◌>>=◌,
}
use live_translation.Ogg.Page.{OggSPage, new_page}
use live_translation.Ogg.Headers.{OpusIdHeader, OpusCommentHeader}
use live_translation.Ogg.Audio.{OggOpusAudio, audio_from_bytes, calculate_page_duration}
use live_translation.Ogg.Split.Lossless.{join_raw}

pub record CreateAudioBuffer : Type 0 where
  pub last_n_seconds : ℕ
  pub min_n_seconds : ℕ
  pub audio_data_buffer : List OggSPage
  pub current_audio_buffer_seconds : ℤ
  pub header_buffer : Bytes
  pub header_pages : Option (List OggSPage)
  pub sample_rate : ℕ
  pub start_of_buffer_time : ℤ

-- `Create_Audio_Buffer(last_n_seconds, min_n_seconds)`
unfoldable pub init : ℕ → ℕ → CreateAudioBuffer
init last_n_seconds min_n_seconds = record {
  last_n_seconds = last_n_seconds;
  min_n_seconds = min_n_seconds;
  audio_data_buffer = [];
  current_audio_buffer_seconds = pos 0;
  header_buffer = [];
  header_pages = none;
  sample_rate = 0;
  start_of_buffer_time = pos 0;
}

-- `not self._header_pages`: None, or a list with nothing in it.
abbrev pub lacks_headers : Option (List OggSPage) → Bool
lacks_headers none = true
lacks_headers (some []) = true
lacks_headers (some (p ∷ ps)) = false

-- [OggS_Page(page.raw_data) for page in pages]
abbrev reread : List OggSPage → Result (List OggSPage)
reread [] = ok []
reread (p ∷ ps) = new_page p.raw_data >>= λ q. reread ps >>= λ qs. ok (q ∷ qs)

-- The first part of `execute` ends the call or goes on with the state.
pub data Headers : Type 0 where
  stop : Outcome CreateAudioBuffer → Headers
  go : CreateAudioBuffer → Headers

-- Both headers are there: the sample rate and the header pages are set, one after the other.
unfoldable pub keep_headers :
    CreateAudioBuffer → Package → OpusIdHeader → OpusCommentHeader → Headers
keep_headers self dp id_header comment_header =
    let s = record self { sample_rate = id_header.input_sample_rate; header_pages = some [] } in
    elim (new_page id_header.page.raw_data) [
      | err e ↦ stop (raising s dp e)
      | ok p ↦ elim (reread comment_header.pages) [
        | err e ↦ stop (raising (record s { header_pages = some (p ∷ []) }) dp e)
        | ok ps ↦ go (record s { header_pages = some (p ∷ ps) })
      ]
    ]

abbrev pub choose_headers :
    CreateAudioBuffer → Package → Option OpusIdHeader → Option OpusCommentHeader → Headers
choose_headers self dp (some i) (some c) = keep_headers self dp i c
choose_headers self dp (some i) none = stop (exiting self dp "Could not find the header pages")
choose_headers self dp none c = stop (exiting self dp "Could not find the header pages")

-- The block under `if not self._header_pages`.
unfoldable pub find_headers : CreateAudioBuffer → Package → Bytes → Headers
find_headers self dp raw =
    let s = record self { header_buffer = self.header_buffer ++ raw } in
    elim (audio_from_bytes s.header_buffer) [
      | err e ↦ stop (raising s dp e)
      | ok audio ↦ choose_headers s dp audio.id_header audio.comment_header
    ]

-- The first page leaves the buffer; the exception that the division may raise comes after the pop.
unfoldable pub pop_page : CreateAudioBuffer → List OggSPage → CreateAudioBuffer × Option Error
pop_page self [] = (self, some index_error)
pop_page self (p ∷ ps) =
    let s = record self { audio_data_buffer = ps } in
    let next = elim ps as (λ _. ℕ) [ [] ↦ p.granule_position | q ∷ _ ↦ q.granule_position ] in
    elim (calculate_page_duration next (some p.granule_position) self.sample_rate) [
      | err e ↦ (s, some e)
      | ok d ↦ (
        record s {
          current_audio_buffer_seconds = self.current_audio_buffer_seconds -ℤ d;
          start_of_buffer_time = self.start_of_buffer_time +ℤ d;
        },
        none,
      )
    ]

-- The audio that a call passes on.
abbrev pub publish : CreateAudioBuffer → Package → AudioData → Outcome CreateAudioBuffer
publish self dp d = passing self dp (record d {
  raw_audio_data = self.header_buffer ++ join_raw self.audio_data_buffer;
  audio_buffer_time = some self.current_audio_buffer_seconds;
  audio_buffer_start_after = some self.start_of_buffer_time;
})

abbrev publish_or_raise :
    CreateAudioBuffer × Option Error → Package → AudioData → Outcome CreateAudioBuffer
publish_or_raise (s, none) dp d = publish s dp d
publish_or_raise (s, some e) dp d = raising s dp e

-- `seconds >= n`
abbrev pub reaches : CreateAudioBuffer → ℕ → Bool
reaches self n = leb_ℤ (pos (n * self.sample_rate)) self.current_audio_buffer_seconds

-- The page has been appended, with this duration.
unfoldable pub emit_window : CreateAudioBuffer → Package → AudioData → ℤ → Outcome CreateAudioBuffer
unfolding pop_page
emit_window self dp d page_duration =
    if ltb_ℤ (pos 0) page_duration && reaches self self.min_n_seconds
    then (if reaches self self.last_n_seconds
        then publish_or_raise (pop_page self self.audio_data_buffer) dp d
        else publish self dp d)
    else exiting self dp "Not enough audio data to create a package"

-- `last_page.granule_position if last_page else 0`
abbrev pub previous_granule : List OggSPage → ℕ
previous_granule pages = elim (get_last? pages) [ none ↦ 0 | some p ↦ p.granule_position ]

-- The part of `execute` behind the headers.
unfoldable pub add_page :
    CreateAudioBuffer → Package → AudioData → OggSPage → Outcome CreateAudioBuffer
unfolding emit_window
add_page self dp d page =
    elim (calculate_page_duration page.granule_position
      (some (previous_granule self.audio_data_buffer)) self.sample_rate) [
        | err e ↦ raising self dp e
        | ok page_duration ↦
            emit_window
              (record self {
                audio_data_buffer = self.audio_data_buffer ++ page ∷ [];
                current_audio_buffer_seconds = self.current_audio_buffer_seconds +ℤ page_duration;
              })
              dp d page_duration
      ]

abbrev pub continue_with : Headers → Package → AudioData → OggSPage → Outcome CreateAudioBuffer
continue_with (stop o) dp d page = o
continue_with (go self) dp d page = add_page self dp d page

-- `execute` on data that holds bytes.
unfoldable pub execute_page : CreateAudioBuffer → Package → AudioData → Outcome CreateAudioBuffer
execute_page self dp d = elim (new_page d.raw_audio_data) [
  | err e ↦ raising self dp e
  | ok page ↦
      if lacks_headers self.header_pages
      then continue_with (find_headers self dp d.raw_audio_data) dp d page
      else add_page self dp d page
]

abbrev execute_raw : CreateAudioBuffer → Package → AudioData → Bytes → Outcome CreateAudioBuffer
execute_raw self dp d [] = raising self dp (exception "No audio data found")
execute_raw self dp d (b ∷ bs) = execute_page self dp d

abbrev execute_on : CreateAudioBuffer → Package → Option AudioData → Outcome CreateAudioBuffer
execute_on self dp none = raising self dp (exception "No data found")
execute_on self dp (some d) = execute_raw self dp d d.raw_audio_data

unfoldable pub execute : CreateAudioBuffer → Package → Outcome CreateAudioBuffer
execute self dp = execute_on self dp dp.audio
