-- ===== src/Ogg/Headers.antt =====
-- ogg.py, `OPUS_Id_Header` and `OPUS_Comment_Header`.
pub mod Comments
use live_translation.Base.{
  ℕ, zero, suc, ◌+◌, ◌-◌, ◌*◌, ℤ, pos, negsuc, not, String, List, [], ◌∷◌, ◌++◌, ltb, if◌then◌else◌,
  length, slice, drop,
}
use live_translation.Data.{Bytes, Text, Result, ok, err, value_error, ◌>>=◌}
use live_translation.Ogg.Bytes.{little, byte_at, starts_with, int_from_bytes, pow256}
use live_translation.Ogg.Utf8.{decode}
use live_translation.Ogg.Page.{OggSPage}

-- b'OpusHead' and b'OpusTags'
abbrev pub opus_head : Bytes
opus_head = b'O' ∷ b'p' ∷ b'u' ∷ b's' ∷ b'H' ∷ b'e' ∷ b'a' ∷ b'd' ∷ []

abbrev pub opus_tags : Bytes
opus_tags = b'O' ∷ b'p' ∷ b'u' ∷ b's' ∷ b'T' ∷ b'a' ∷ b'g' ∷ b's' ∷ []

pub record OpusIdHeader : Type 0 where
  pub page : OggSPage
  pub version : ℕ
  pub channel_count : ℕ
  pub pre_skip : ℕ
  pub input_sample_rate : ℕ
  pub output_gain : ℤ
  pub mapping_family : ℕ
  pub optional_mapping_table : Bytes

-- `int.from_bytes(bs, 'little', signed=True)`: two's complement over the bytes that are there.
unfoldable pub signed_from_bytes : Bytes → ℤ
signed_from_bytes bs =
    let n = int_from_bytes little bs in
    let m = pow256 (length bs) in if ltb (2 * n) m then pos n else negsuc (m - n - 1)

unfoldable pub id_header_from_page : OggSPage → Result OpusIdHeader
unfolding byte_at
id_header_from_page page = do
  let data_ = page.payload
  version ← byte_at data_ 8
  channel_count ← byte_at data_ 9
  mapping_family ← byte_at data_ 18
  ok (record {
    page = page;
    version = version;
    channel_count = channel_count;
    pre_skip = int_from_bytes little (slice data_ 10 12);
    input_sample_rate = int_from_bytes little (slice data_ 12 16);
    output_gain = signed_from_bytes (slice data_ 16 18);
    mapping_family = mapping_family;
    optional_mapping_table = if ltb 19 (length data_) then drop 19 data_ else [];
  })

pub record OpusCommentHeader : Type 0 where
  pub pages : List OggSPage
  pub vendor_string_length : ℕ
  pub vendor_string : Text
  pub user_comments : List Text

-- b''.join(page.data for page in self.pages)
abbrev pub join_payloads : List OggSPage → Bytes
join_payloads [] = []
join_payloads (p ∷ ps) = p.payload ++ join_payloads ps

-- One round of the loop over the user comments: the comment, and the offset behind it.
unfoldable pub read_comment : Bytes → ℕ → Result (Text × ℕ)
read_comment data_ offset =
    if ltb (length data_) (offset + 4)
    then err (value_error "Unexpected end of data while reading user comment length.")
    else (let user_comment_length = int_from_bytes little (slice data_ offset (offset + 4)) in
        let start = offset + 4 in
        if ltb (length data_) (start + user_comment_length)
        then err (value_error "Unexpected end of data while reading user comment.")
        else (decode (slice data_ start (start + user_comment_length)) >>= λ user_comment.
            ok (user_comment, start + user_comment_length)))

-- `for _ in range(user_comment_list_length)`
unfoldable pub read_comments : ℕ → Bytes → ℕ → Result (List Text)
read_comments zero data_ offset = ok []
read_comments (suc n) data_ offset =
    read_comment data_ offset >>= λ r. read_comments n data_ r.1 >>= λ rest. ok (r.0 ∷ rest)

-- `_from_pages` behind the test of the prefix: everything from the vendor string on.
unfoldable pub read_tags : List OggSPage → Bytes → Result OpusCommentHeader
read_tags pages data_ = do
  let vendor_string_length = int_from_bytes little (slice data_ 8 12)
  vendor_string ← decode (slice data_ 12 (12 + vendor_string_length))
  let offset = 12 + vendor_string_length
  let user_comment_list_length = int_from_bytes little (slice data_ offset (offset + 4))
  user_comments ← read_comments user_comment_list_length data_ (offset + 4)
  ok (record {
    pages = pages;
    vendor_string_length = vendor_string_length;
    vendor_string = vendor_string;
    user_comments = user_comments;
  })

unfoldable pub comment_header_from_pages : List OggSPage → Result OpusCommentHeader
comment_header_from_pages pages =
    let data_ = join_payloads pages in
    if not (starts_with data_ opus_tags)
    then err (value_error "Invalid Comment Header: Does not start with 'OpusTags'.")
    else read_tags pages data_
