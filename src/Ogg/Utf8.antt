-- ===== src/Ogg/Utf8.antt =====
-- Python's `bytes.decode('utf-8')`, strict: what the comment header's strings go through.
use live_translation.Base.{
  ℕ, ◌+◌, ◌-◌, ◌*◌, ◌&&◌, Option, none, some, [], ◌∷◌, ◌≡◌, refl, arith, ltb, leb, ◌==◌,
  if◌then◌else◌, All, ◌<◌,
}
use live_translation.Data.{Bytes, Text, Result, ok, err, unicode_error, ◌>>=◌}

-- Between two characters, or inside one: how many bytes are still to come, the range of the next one,
-- and the bits read so far.
pub data Pending : Type 0 where
  between : Pending
  inside : ℕ → ℕ → ℕ → ℕ → Pending

-- The first byte of a character. No overlong form, no surrogate, nothing above U+10FFFF.
lead : ℕ → Result (Option ℕ × Pending)
lead b =
    if ltb b 0x80
    then ok (some b, between)
    else if leb 0xC2 b && ltb b 0xE0
    then ok (none, inside 1 0x80 0xBF (b - 0xC0))
    else if b == 0xE0
    then ok (none, inside 2 0xA0 0xBF 0)
    else if b == 0xED
    then ok (none, inside 2 0x80 0x9F (b - 0xE0))
    else if leb 0xE1 b && ltb b 0xF0
    then ok (none, inside 2 0x80 0xBF (b - 0xE0))
    else if b == 0xF0
    then ok (none, inside 3 0x90 0xBF 0)
    else if leb 0xF1 b && ltb b 0xF4
    then ok (none, inside 3 0x80 0xBF (b - 0xF0))
    else if b == 0xF4
    then ok (none, inside 3 0x80 0x8F (b - 0xF0))
    else err unicode_error

-- One more byte.
step : Pending → ℕ → Result (Option ℕ × Pending)
unfolding lead
step between b = lead b
step (inside left lo hi bits) b =
    let bits' = bits * 64 + (b - 0x80) in
    if leb lo b && leb b hi
    then (if left == 1
        then ok (some bits', between)
        else ok (none, inside (left - 1) 0x80 0xBF bits'))
    else err unicode_error

abbrev emit : Option ℕ → Text → Text
emit none t = t
emit (some c) t = c ∷ t

decode_from : Pending → Bytes → Result Text
unfolding step
decode_from between [] = ok []
decode_from (inside left lo hi bits) [] = err unicode_error
decode_from p (b ∷ bs) = step p b >>= λ r. decode_from r.1 bs >>= λ t. ok (emit r.0 t)

unfoldable pub decode : Bytes → Result Text
unfolding decode_from
decode bs = decode_from between bs

-- ASCII text is decoded as it stands.
pub decode_ascii : (bs : Bytes) → All (λ b. b < 128) bs → decode bs ≡ ok bs
unfolding decode
decode_ascii bs h = ascii bs h
  where
    ascii : (cs : Bytes) → All (λ b. b < 128) cs → decode_from between cs ≡ ok cs
    ascii [] k = refl
    ascii (c ∷ cs) k = ground (arith, k.0, ascii cs k.1)

decode_euro :
    decode (0x41 ∷ 0xC3 ∷ 0xA4 ∷ 0xE2 ∷ 0x82 ∷ 0xAC ∷ 0xF0 ∷ 0x9F ∷ 0x98 ∷ 0x80 ∷ [])
    ≡ ok (0x41 ∷ 0xE4 ∷ 0x20AC ∷ 0x1F600 ∷ [])
unfolding decode
decode_euro = refl
