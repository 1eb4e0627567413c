-- ===== src/Ogg/Page.antt =====
-- ogg.py, `OggS_Page`: the header of an Ogg page read from raw bytes.
pub mod Layout
pub mod Bounds
use live_translation.Base.{
  ℕ, ◌+◌, Bool, not, ◌||◌, ℤ, pos, List, [], ◌∷◌, ltb, if◌then◌else◌, length, slice,
}
use live_translation.Data.{Bytes, Result, ok, err, value_error, ◌>>=◌}
use live_translation.Ogg.Bytes.{Endianness, little, byte_at, bytes_eq, int_from_bytes, sum}

-- `data` is the field `payload`. A duration is counted in samples, `sample_rate` to the second.
pub record OggSPage : Type 0 where
  pub raw_data : Bytes
  pub endianness : Endianness
  pub capture_pattern : Bytes
  pub version : ℕ
  pub header_type : ℕ
  pub granule_position : ℕ
  pub serial_number : ℕ
  pub page_sequence_number : ℕ
  pub crc_checksum : ℕ
  pub segment_count : ℕ
  pub segment_table : Bytes
  pub page_size : ℕ
  pub duration : ℤ
  pub payload : Bytes

-- b'OggS'
abbrev pub oggs : Bytes
oggs = b'O' ∷ b'g' ∷ b'g' ∷ b'S' ∷ []

-- The assignments of `_from_bytes`, once the single bytes are read.
abbrev fill_page : Endianness → Bytes → ℕ → ℕ → ℕ → OggSPage
fill_page e raw version header_type segment_count =
    let table = slice raw 27 (27 + segment_count) in
    let size = 27 + length table + sum table in
    record {
      raw_data = raw;
      endianness = e;
      capture_pattern = slice raw 0 4;
      version = version;
      header_type = header_type;
      granule_position = int_from_bytes e (slice raw 6 14);
      serial_number = int_from_bytes e (slice raw 14 18);
      page_sequence_number = int_from_bytes e (slice raw 18 22);
      crc_checksum = int_from_bytes e (slice raw 22 26);
      segment_count = segment_count;
      segment_table = table;
      page_size = size;
      duration = pos 0;
      payload = slice raw (27 + segment_count) size;
    }

-- The guard of `_from_bytes`.
abbrev pub has_header : Bytes → Bool
has_header raw = not (ltb (length raw) 27 || not (bytes_eq (slice raw 0 4) oggs))

unfoldable pub page_from_bytes : Endianness → Bytes → Result OggSPage
unfolding byte_at
page_from_bytes e raw =
    if ltb (length raw) 27 || not (bytes_eq (slice raw 0 4) oggs)
    then err (value_error "Invalid OggS page data.")
    else do
      version ← byte_at raw 4
      header_type ← byte_at raw 5
      segment_count ← byte_at raw 26
      ok (fill_page e raw version header_type segment_count)

-- `OggS_Page(raw_data)`: the endianness is little unless it is given.
abbrev pub new_page : Bytes → Result OggSPage
new_page = page_from_bytes little
