-- ===== src/Ogg/Page/Layout.antt =====
-- The layout of an Ogg page, as the diagram in ogg.py gives it, and the reading of it.
use live_translation.Base.{
  ℕ, ◌+◌, ◌-◌, ◌<◌, ◌≡◌, refl, ap, pos, ◌∷◌, ◌++◌, ◌∙◌, arith, length, drop, true, false, ltb,
  slice, length-append, take-append, drop-append, drop-drop, take_all,
}
use live_translation.Data.{Bytes, ok}
use live_translation.Ogg.Bytes.{
  Endianness, little, byte_at, int_from_bytes, int_to_bytes, sum, pow256, int_from_bytes-to_bytes,
  bytes_eq,
}
use live_translation.Ogg.Page.{OggSPage, oggs, fill_page, page_from_bytes, new_page}

-- The fields of a page that the diagram lays out one after the other.
pub record Layout : Type 0 where
  pub version : ℕ
  pub header_type : ℕ
  pub granule_position : ℕ
  pub serial_number : ℕ
  pub page_sequence_number : ℕ
  pub crc_checksum : ℕ
  pub segment_table : Bytes
  pub payload : Bytes

-- The numbers fit their fields, and the payload is what the segment table announces.
pub record IsWellFormed (l : Layout) : Type 0 where
  pub granule_fits : l.granule_position < pow256 8
  pub serial_fits : l.serial_number < pow256 4
  pub sequence_fits : l.page_sequence_number < pow256 4
  pub checksum_fits : l.crc_checksum < pow256 4
  pub payload_fits : length l.payload ≡ sum l.segment_table

-- Bytes 0 to 26.
abbrev header_bytes : Layout → Bytes → Bytes
header_bytes l rest =
    oggs
    ++ l.version
      ∷ l.header_type
      ∷ (int_to_bytes 8 l.granule_position
          ++ (int_to_bytes 4 l.serial_number
              ++ (int_to_bytes 4 l.page_sequence_number
                  ++ (int_to_bytes 4 l.crc_checksum ++ length l.segment_table ∷ rest))))

unfoldable pub page_bytes : Layout → Bytes
page_bytes l = header_bytes l (l.segment_table ++ l.payload)

-- The page that holds these fields.
unfoldable pub page_of : Layout → OggSPage
unfolding page_bytes
page_of l = record {
  raw_data = page_bytes l;
  endianness = little;
  capture_pattern = oggs;
  version = l.version;
  header_type = l.header_type;
  granule_position = l.granule_position;
  serial_number = l.serial_number;
  page_sequence_number = l.page_sequence_number;
  crc_checksum = l.crc_checksum;
  segment_count = length l.segment_table;
  segment_table = l.segment_table;
  page_size = 27 + length l.segment_table + sum l.segment_table;
  duration = pos 0;
  payload = l.payload;
}

pub page_bytes-length :
    (l : Layout) → length (page_bytes l) ≡ 27 + (length l.segment_table + length l.payload)
unfolding page_bytes
page_bytes-length l = omega (arith, length-append l.segment_table l.payload)

-- The two slices behind the fixed header.
table-slice :
    (raw table payload : Bytes)
    → drop 27 raw ≡ table ++ payload
    → slice raw 27 (27 + length table) ≡ table
table-slice raw table payload e =
    let n : 27 + length table - 27 ≡ length table = omega arith in
    rw (n, e) (take-append (length table) table payload refl)

payload-slice :
    (raw table payload : Bytes)
    → drop 27 raw ≡ table ++ payload
    → length payload ≡ sum table
    → slice raw (27 + length table) (27 + length table + sum table) ≡ payload
payload-slice raw table payload e p =
    let n : 27 + length table + sum table - (27 + length table) ≡ length payload = omega arith in
    rw
      (
        n,
        ← drop-drop 27 (length table) (27 + length table) raw refl,
        e,
        drop-append (length table) table payload refl,
      )
      (take_all (length payload) payload (omega arith))

-- With the guard passed and the three single bytes known, the page is what `fill_page` builds.
pub page_from_bytes-eq :
    (e : Endianness) (raw : Bytes) (v h n : ℕ)
    → ltb (length raw) 27 ≡ false
    → bytes_eq (slice raw 0 4) oggs ≡ true
    → byte_at raw 4 ≡ ok v
    → byte_at raw 5 ≡ ok h
    → byte_at raw 26 ≡ ok n
    → page_from_bytes e raw ≡ ok (fill_page e raw v h n)
unfolding page_from_bytes
page_from_bytes-eq e raw v h n long magic ev eh en = rw (long, magic, ev, eh, en)

module _ (l : Layout) (w : IsWellFormed l) where
  -- The four numbers of the header.
  numbers :
      (int_from_bytes little (slice (page_bytes l) 6 14) ≡ l.granule_position)
      × (int_from_bytes little (slice (page_bytes l) 14 18) ≡ l.serial_number)
      × (int_from_bytes little (slice (page_bytes l) 18 22) ≡ l.page_sequence_number)
      × (int_from_bytes little (slice (page_bytes l) 22 26) ≡ l.crc_checksum)
  unfolding page_bytes
  numbers = (
    int_from_bytes-to_bytes 8 l.granule_position w.granule_fits,
    int_from_bytes-to_bytes 4 l.serial_number w.serial_fits,
    int_from_bytes-to_bytes 4 l.page_sequence_number w.sequence_fits,
    int_from_bytes-to_bytes 4 l.crc_checksum w.checksum_fits,
  )

  magic_bytes : slice (page_bytes l) 0 4 ≡ oggs
  unfolding page_bytes
  magic_bytes = refl

  body : drop 27 (page_bytes l) ≡ l.segment_table ++ l.payload
  unfolding page_bytes
  body = refl

  fill_page-page_of :
      fill_page little (page_bytes l) l.version l.header_type (length l.segment_table) ≡ page_of l
  unfolding page_of
  fill_page-page_of = rw (
    table-slice (page_bytes l) l.segment_table l.payload body,
    payload-slice (page_bytes l) l.segment_table l.payload body w.payload_fits,
    magic_bytes,
    numbers.0,
    numbers.1,
    numbers.2,
    numbers.3,
  )

  -- A page laid out as documented is read back field by field.
  pub page_from_bytes-page_bytes : new_page (page_bytes l) ≡ ok (page_of l)
  unfolding page_bytes byte_at
  page_from_bytes-page_bytes =
      page_from_bytes-eq little (page_bytes l) l.version l.header_type (length l.segment_table)
        (ground (arith, page_bytes-length l)) refl refl refl refl
      ∙ ap ok fill_page-page_of
