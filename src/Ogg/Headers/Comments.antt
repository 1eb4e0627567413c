-- ===== src/Ogg/Headers/Comments.antt =====
-- The layout of a comment header, and the reading of it.
use mathlib.Core.List.{append_assoc}
use live_translation.Base.{
  ℕ, ◌+◌, ◌-◌, ◌≤◌, ◌<◌, ◌≡◌, refl, sym, ap, ◌∙◌, true, false, List, [], ◌∷◌, ◌++◌, map, arith,
  length, length-append, length-drop, drop, slice, ltb, take-append, drop-append, drop-drop, All,
}
use live_translation.Data.{Bytes, Text, ok}
use live_translation.Ogg.Bytes.{
  little, int_from_bytes, int_to_bytes, pow256, int_from_bytes-to_bytes, length-int_to_bytes,
  starts_with,
}
use live_translation.Ogg.Utf8.{decode}
use live_translation.Ogg.Page.{OggSPage}
use live_translation.Ogg.Headers.{
  opus_tags, join_payloads, read_comment, read_comments, read_tags, comment_header_from_pages,
}

-- A string of the header: its bytes and the text that they encode.
pub record Encoded : Type 0 where
  pub raw : Bytes
  pub text : Text

pub record IsEncoded (s : Encoded) : Type 0 where
  pub fits : length s.raw < pow256 4
  pub decodes : decode s.raw ≡ ok s.text

-- Its length in four bytes, and the bytes.
abbrev pub string_bytes : Encoded → Bytes
string_bytes s = int_to_bytes 4 (length s.raw) ++ s.raw

abbrev pub strings_bytes : List Encoded → Bytes
strings_bytes [] = []
strings_bytes (s ∷ ss) = string_bytes s ++ strings_bytes ss

-- The whole header.
abbrev pub comment_bytes : Encoded → List Encoded → Bytes
comment_bytes vendor comments =
    opus_tags
    ++ (string_bytes vendor ++ (int_to_bytes 4 (length comments) ++ strings_bytes comments))

abbrev pub texts : List Encoded → List Text
texts = map (λ s. s.text)

-- A length field, wherever it stands.
length_field :
    (data_ : Bytes) (o n : ℕ) (more : Bytes)
    → n < pow256 4
    → drop o data_ ≡ int_to_bytes 4 n ++ more
    → int_from_bytes little (slice data_ o (o + 4)) ≡ n
length_field data_ o n more h e =
    let w : o + 4 - o ≡ 4 = omega arith in
    rw (w, e, take-append 4 (int_to_bytes 4 n) more (length-int_to_bytes 4 n))
      (int_from_bytes-to_bytes 4 n h)

-- What stands behind a part of `k` bytes.
behind :
    (data_ : Bytes) (o k o' : ℕ) (part more : Bytes)
    → o + k ≡ o'
    → length part ≡ k
    → drop o data_ ≡ part ++ more
    → drop o' data_ ≡ more
behind data_ o k o' part more s l e =
    sym (drop-drop o k o' data_ s) ∙ rw e (drop-append k part more l)

-- A string field, wherever it stands.
string_field :
    (data_ : Bytes) (o : ℕ) (s : Encoded) (more : Bytes)
    → drop o data_ ≡ s.raw ++ more
    → slice data_ o (o + length s.raw) ≡ s.raw
string_field data_ o s more e =
    let w : o + length s.raw - o ≡ length s.raw = omega arith in
    rw (w, e) (take-append (length s.raw) s.raw more refl)

module _ (data_ : Bytes) (o : ℕ) (s : Encoded) (more : Bytes) (w : IsEncoded s)
    (e : drop o data_ ≡ string_bytes s ++ more) where
  split_field : drop o data_ ≡ int_to_bytes 4 (length s.raw) ++ (s.raw ++ more)
  split_field = e ∙ append_assoc (int_to_bytes 4 (length s.raw)) s.raw more

  text_behind : drop (o + 4) data_ ≡ s.raw ++ more
  text_behind =
      behind data_ o 4 (o + 4) (int_to_bytes 4 (length s.raw)) (s.raw ++ more) refl
        (length-int_to_bytes 4 (length s.raw)) split_field

  more_behind : drop (o + 4 + length s.raw) data_ ≡ more
  more_behind =
      behind data_ (o + 4) (length s.raw) (o + 4 + length s.raw) s.raw more refl refl text_behind

  room : o + 4 + length s.raw ≤ length data_
  room = omega (arith, length-drop o data_, ap length split_field, length-append s.raw more)

  read_comment-string_bytes : read_comment data_ o ≡ ok (s.text, o + 4 + length s.raw)
  unfolding read_comment
  read_comment-string_bytes = rw (
    short (o + 4) (omega (arith, room)),
    length_field data_ o (length s.raw) (s.raw ++ more) w.fits split_field,
    short (o + 4 + length s.raw) room,
    string_field data_ (o + 4) s more text_behind,
    w.decodes,
  )
    where
      short : (n : ℕ) → n ≤ length data_ → ltb (length data_) n ≡ false
      short n h = ground arith

read_comments-strings_bytes :
    (ss : List Encoded) (data_ : Bytes) (o : ℕ) (more : Bytes)
    → All IsEncoded ss
    → drop o data_ ≡ strings_bytes ss ++ more
    → read_comments (length ss) data_ o ≡ ok (texts ss)
unfolding read_comments
read_comments-strings_bytes [] data_ o more w e = refl
read_comments-strings_bytes (s ∷ ss) data_ o more w e =
    let e' : drop o data_ ≡ string_bytes s ++ (strings_bytes ss ++ more) =
      e ∙ append_assoc (string_bytes s) (strings_bytes ss) more in
    rw (
      read_comment-string_bytes data_ o s (strings_bytes ss ++ more) w.0 e',
      read_comments-strings_bytes ss data_ (o + 4 + length s.raw) more w.1
          (more_behind data_ o s (strings_bytes ss ++ more) w.0 e'),
    )

module _ (data_ : Bytes) (vendor : Encoded) (comments : List Encoded) (padding : Bytes)
    (w : IsEncoded vendor) (ws : All IsEncoded comments) (few : length comments < pow256 4)
    (e : data_ ≡ comment_bytes vendor comments ++ padding) where
  count_and_comments : Bytes
  count_and_comments = int_to_bytes 4 (length comments) ++ (strings_bytes comments ++ padding)

  at_vendor : drop 8 data_ ≡ string_bytes vendor ++ count_and_comments
  unfolding count_and_comments
  at_vendor = rw e (
      ground (
        arith,
        append_assoc vendor.raw (int_to_bytes 4 (length comments) ++ strings_bytes comments)
            padding,
      ))

  at_count : drop (12 + length vendor.raw) data_ ≡ count_and_comments
  at_count = more_behind data_ 8 vendor count_and_comments w at_vendor

  at_comments : drop (12 + length vendor.raw + 4) data_ ≡ strings_bytes comments ++ padding
  unfolding count_and_comments
  at_comments =
      behind data_ (12 + length vendor.raw) 4 (12 + length vendor.raw + 4)
        (int_to_bytes 4 (length comments)) (strings_bytes comments ++ padding) refl
        (length-int_to_bytes 4 (length comments)) at_count

  read_tags-comment_bytes :
      (pages : List OggSPage)
      → read_tags pages data_
        ≡ ok (record {
          pages = pages;
          vendor_string_length = length vendor.raw;
          vendor_string = vendor.text;
          user_comments = texts comments;
        })
  unfolding read_tags count_and_comments
  read_tags-comment_bytes pages = rw (
    length_field data_ 8 (length vendor.raw) (vendor.raw ++ count_and_comments) w.fits
        (split_field data_ 8 vendor count_and_comments w at_vendor),
    string_field data_ 12 vendor count_and_comments
        (text_behind data_ 8 vendor count_and_comments w at_vendor),
    w.decodes,
    length_field data_ (12 + length vendor.raw) (length comments)
        (strings_bytes comments ++ padding) few at_count,
    read_comments-strings_bytes comments data_ (12 + length vendor.raw + 4) padding ws at_comments,
  )

-- Pages whose payloads, joined, are a comment header as the diagram lays it out, padding behind it
-- allowed, give its vendor string and its user comments, where each string is valid UTF-8 and no
-- length takes more than four bytes.
pub comment_header_from_pages-comment_bytes :
    (pages : List OggSPage) (vendor : Encoded) (comments : List Encoded) (padding : Bytes)
    → IsEncoded vendor
    → All IsEncoded comments
    → length comments < pow256 4
    → join_payloads pages ≡ comment_bytes vendor comments ++ padding
    → comment_header_from_pages pages
      ≡ ok (record {
        pages = pages;
        vendor_string_length = length vendor.raw;
        vendor_string = vendor.text;
        user_comments = texts comments;
      })
unfolding comment_header_from_pages
comment_header_from_pages-comment_bytes pages vendor comments padding w ws few e =
    rw (prefix)
      (read_tags-comment_bytes (join_payloads pages) vendor comments padding w ws few e pages)
  where
    prefix : starts_with (join_payloads pages) opus_tags ≡ true
    prefix = rw e
