-- ===== src/Ogg/Page/Bounds.antt =====
-- What holds of every page that `page_from_bytes` accepts, and which input it refuses.
use live_translation.Base.{
  ℕ, ◌+◌, ◌^◌, ◌≤◌, ◌<◌, ◌≡◌, refl, sym, ◌∙◌, subst, true, false, [], ◌∷◌, arith, length, ltb,
  slice, drop, All-take, All-drop, length-take, ◌-◌, Bool-cases, inl, inr,
}
use live_translation.Data.{Bytes, Result, ok, err, value_error}
use live_translation.Ogg.Bytes.{
  Endianness, IsBytes, byte_at, bytes_eq, sum, int_from_bytes-lt, byte_at-lt, sum-le, byte_at_total,
}
use live_translation.Ogg.Page.{OggSPage, oggs, fill_page, page_from_bytes}
use live_translation.Ogg.Page.Layout.{page_from_bytes-eq}

pub bytes_eq→eq : (xs ys : Bytes) → bytes_eq xs ys ≡ true → xs ≡ ys
bytes_eq→eq [] [] h = refl
bytes_eq→eq [] (y ∷ ys) h = cc
bytes_eq→eq (x ∷ xs) [] h = cc
bytes_eq→eq (x ∷ xs) (y ∷ ys) h = ground (arith, bytes_eq→eq xs ys)

-- The input starts with a whole header.
pub record HasHeader (raw : Bytes) : Type 0 where
  pub long : 27 ≤ length raw
  pub magic : bytes_eq (slice raw 0 4) oggs ≡ true

-- The parts of a page that was accepted.
pub record Accepted (e : Endianness) (raw : Bytes) (p : OggSPage) : Type 0 where
  pub header : HasHeader raw
  pub version : ℕ
  pub header_type : ℕ
  pub segment_count : ℕ
  pub at_4 : byte_at raw 4 ≡ ok version
  pub at_5 : byte_at raw 5 ≡ ok header_type
  pub at_26 : byte_at raw 26 ≡ ok segment_count
  pub filled : p ≡ fill_page e raw version header_type segment_count

-- A whole header is enough: nothing that comes after it is refused.
pub HasHeader-Accepted :
    (e : Endianness) (raw : Bytes)
    → HasHeader raw
    → (p : OggSPage) × (page_from_bytes e raw ≡ ok p) × Accepted e raw p
HasHeader-Accepted e raw h =
    let (v, ev) = byte_at_total raw 4 (omega (arith, h.long)) in
    let (t, et) = byte_at_total raw 5 (omega (arith, h.long)) in
    let (n, en) = byte_at_total raw 26 (omega (arith, h.long)) in
    (
      fill_page e raw v t n,
      page_from_bytes-eq e raw v t n (short (h.long)) h.magic ev et en,
      record {
        header = h;
        version = v;
        header_type = t;
        segment_count = n;
        at_4 = ev;
        at_5 = et;
        at_26 = en;
        filled = refl;
      },
    )
  where
    short : 27 ≤ length raw → ltb (length raw) 27 ≡ false
    short l = ground arith

pub page_from_bytes-HasHeader :
    (e : Endianness) (raw : Bytes) (p : OggSPage) → page_from_bytes e raw ≡ ok p → HasHeader raw
unfolding page_from_bytes
page_from_bytes-HasHeader e raw p h = elim (Bool-cases (ltb (length raw) 27)) [
  | inl short ↦ absurd (refused (rw (short) at h))
  | inr long ↦ elim (Bool-cases (bytes_eq (slice raw 0 4) oggs)) [
    | inl magic ↦ record { long = ground arith; magic = magic }
    | inr other ↦ absurd (refused (rw (long, other) at h))
  ]
]
  where
    refused : ◌≡◌ {A = Result OggSPage} (err (value_error "Invalid OggS page data.")) (ok p) → ⊥
    refused q = cc

-- Accepted pages are exactly the results of inputs with a header.
pub page_from_bytes-Accepted :
    (e : Endianness) (raw : Bytes) (p : OggSPage) → page_from_bytes e raw ≡ ok p → Accepted e raw p
page_from_bytes-Accepted e raw p h =
    let (q, eq, a) = HasHeader-Accepted e raw (page_from_bytes-HasHeader e raw p h) in
    subst (Accepted e raw) (ok-injective (sym eq ∙ h)) a
  where
    ok-injective : {a b : OggSPage} → ok a ≡ ok b → a ≡ b
    ok-injective q = cc

-- `raw` has at most the size of a page, and its numbers the width of their fields.
pub record InRange (p : OggSPage) : Type 0 where
  pub magic : p.capture_pattern ≡ oggs
  pub version_lt : p.version < 256
  pub header_type_lt : p.header_type < 256
  pub granule_lt : p.granule_position < 2 ^ 64
  pub serial_lt : p.serial_number < 2 ^ 32
  pub sequence_lt : p.page_sequence_number < 2 ^ 32
  pub checksum_lt : p.crc_checksum < 2 ^ 32
  pub count_lt : p.segment_count < 256
  pub table_le : length p.segment_table ≤ p.segment_count
  pub size_le : p.page_size ≤ 65307
  pub payload_le : length p.payload + 27 ≤ p.page_size

module _ (e : Endianness) (raw : Bytes) (bs : IsBytes raw) where
  slice-lt : (a b : ℕ) → IsBytes (slice raw a b)
  slice-lt a b = All-take _ (b - a) (drop a raw) (All-drop _ a raw bs)

  length-slice : (a b : ℕ) → length (slice raw a b) ≤ b - a
  length-slice a b = omega (arith, length-take (b - a) (drop a raw))

  pub fill_page-InRange :
      (v t n : ℕ) → HasHeader raw → v < 256 → t < 256 → n < 256 → InRange (fill_page e raw v t n)
  fill_page-InRange v t n h lv lt ln = record {
    magic = bytes_eq→eq (slice raw 0 4) oggs h.magic;
    version_lt = lv;
    header_type_lt = lt;
    granule_lt = int_from_bytes-lt e 8 (slice raw 6 14) (slice-lt 6 14) (length-slice 6 14);
    serial_lt = int_from_bytes-lt e 4 (slice raw 14 18) (slice-lt 14 18) (length-slice 14 18);
    sequence_lt = int_from_bytes-lt e 4 (slice raw 18 22) (slice-lt 18 22) (length-slice 18 22);
    checksum_lt = int_from_bytes-lt e 4 (slice raw 22 26) (slice-lt 22 26) (length-slice 22 26);
    count_lt = ln;
    table_le = omega (arith, length-slice 27 (27 + n));
    size_le =
        omega
          (arith, length-slice 27 (27 + n), sum-le (slice raw 27 (27 + n)) (slice-lt 27 (27 + n)));
    payload_le = omega (
      arith,
      length-slice (27 + n) (27 + length (slice raw 27 (27 + n)) + sum (slice raw 27 (27 + n))),
    );
  }

  -- Every page read from bytes has its fields in range.
  pub page_from_bytes-InRange : (p : OggSPage) → page_from_bytes e raw ≡ ok p → InRange p
  page_from_bytes-InRange p h =
      let a = page_from_bytes-Accepted e raw p h in
      rw a.filled (
        fill_page-InRange a.version a.header_type a.segment_count a.header
          (byte_at-lt raw 4 a.version bs a.at_4) (byte_at-lt raw 5 a.header_type bs a.at_5)
          (byte_at-lt raw 26 a.segment_count bs a.at_26))
