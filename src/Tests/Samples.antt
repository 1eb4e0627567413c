-- ===== src/Tests/Samples.antt =====
-- Sample pages: an ID header, a comment header in one page, and two pages of audio at 48 kHz.
use live_translation.Base.{ℕ, none, some, [], ◌∷◌, ◌++◌}
use live_translation.Data.{Bytes, AudioData, Package, running}
use live_translation.Ogg.Headers.{opus_head, opus_tags}
use live_translation.Ogg.Page.Layout.{Layout}

-- Version 1, two channels, pre-skip 312, 48000 Hz, gain -256, mapping family 0.
abbrev pub id_payload : Bytes
id_payload = opus_head ++ 1 ∷ 2 ∷ 56 ∷ 1 ∷ 128 ∷ 187 ∷ 0 ∷ 0 ∷ 0 ∷ 255 ∷ 0 ∷ []

abbrev pub id_page : Layout
id_page = record {
  version = 0;
  header_type = 2;
  granule_position = 0;
  serial_number = 7;
  page_sequence_number = 0;
  crc_checksum = 99;
  segment_table = 19 ∷ [];
  payload = id_payload;
}

-- The vendor "ab" and one comment, "c".
abbrev pub tags_payload : Bytes
tags_payload = opus_tags ++ 2 ∷ 0 ∷ 0 ∷ 0 ∷ 97 ∷ 98 ∷ 1 ∷ 0 ∷ 0 ∷ 0 ∷ 1 ∷ 0 ∷ 0 ∷ 0 ∷ 99 ∷ []

abbrev pub tags_page : Layout
tags_page = record {
  version = 0;
  header_type = 0;
  granule_position = 0;
  serial_number = 7;
  page_sequence_number = 1;
  crc_checksum = 99;
  segment_table = 23 ∷ [];
  payload = tags_payload;
}

-- An audio page of two bytes.
abbrev pub audio_page : ℕ → ℕ → Layout
audio_page sequence granule = record {
  version = 0;
  header_type = 0;
  granule_position = granule;
  serial_number = 7;
  page_sequence_number = sequence;
  crc_checksum = 99;
  segment_table = 2 ∷ [];
  payload = 1 ∷ 2 ∷ [];
}

abbrev pub raw_data : Bytes → AudioData
raw_data raw = record {
  raw_audio_data = raw;
  audio_buffer = none;
  audio_buffer_time = none;
  audio_buffer_start_after = none;
  audio_data = none;
  audio_data_sample_rate = none;
  vad_result = none;
  language = none;
  transcribed_segments = none;
  confirmed_words = none;
  unconfirmed_words = none;
  translations = none;
}

abbrev pub package_of : AudioData → Package
package_of d = record { audio = some d; status = running; message = "" }
