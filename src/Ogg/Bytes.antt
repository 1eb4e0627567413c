-- ===== src/Ogg/Bytes.antt =====
-- What ogg.py uses of Python's `bytes`: indexing, slices, comparison and `int.from_bytes`.
use live_translation.Base.{
  ℕ, zero, suc, ◌+◌, ◌*◌, ◌/◌, ◌%◌, ◌≤◌, ◌<◌, ◌≡◌, refl, ap, Bool, true, false, ◌&&◌, none, some,
  [], ◌∷◌, arith, ◌==◌, length, get_elem?, take, All,
}
use live_translation.Data.{Bytes, Result, ok, err, index_error}

pub data Endianness : Type 0 where
  little big : Endianness

-- `data[i]`
unfoldable pub byte_at : Bytes → ℕ → Result ℕ
byte_at bs i = elim (get_elem? bs i) [ none ↦ err index_error | some b ↦ ok b ]

abbrev pub bytes_eq : Bytes → Bytes → Bool
bytes_eq [] [] = true
bytes_eq [] (y ∷ ys) = false
bytes_eq (x ∷ xs) [] = false
bytes_eq (x ∷ xs) (y ∷ ys) = x == y && bytes_eq xs ys

-- `data.startswith(prefix)`
abbrev pub starts_with : Bytes → Bytes → Bool
starts_with bs prefix = bytes_eq (take (length prefix) bs) prefix

abbrev from_little : Bytes → ℕ
from_little [] = 0
from_little (b ∷ bs) = b + 256 * from_little bs

abbrev from_big : ℕ → Bytes → ℕ
from_big acc [] = acc
from_big acc (b ∷ bs) = from_big (acc * 256 + b) bs

-- `int.from_bytes(bs, endianness)`, unsigned
unfoldable pub int_from_bytes : Endianness → Bytes → ℕ
int_from_bytes little bs = from_little bs
int_from_bytes big bs = from_big 0 bs

-- `sum(bs)`
abbrev pub sum : Bytes → ℕ
sum [] = 0
sum (b ∷ bs) = b + sum bs

-- `n.to_bytes(k, 'little')`: the inverse, for stating what a page looks like.
abbrev pub int_to_bytes : ℕ → ℕ → Bytes
int_to_bytes zero n = []
int_to_bytes (suc k) n = (n % 256) ∷ int_to_bytes k (n / 256)

abbrev pub IsBytes : Bytes → Type 0
IsBytes = All (λ b. b < 256)

-- 256 ^ k
abbrev pub pow256 : ℕ → ℕ
pow256 zero = 1
pow256 (suc k) = 256 * pow256 k

pub int_from_bytes-to_bytes :
    (k n : ℕ) → n < pow256 k → int_from_bytes little (int_to_bytes k n) ≡ n
unfolding int_from_bytes
int_from_bytes-to_bytes zero n h = omega arith
int_from_bytes-to_bytes (suc k) n h =
    omega (arith, int_from_bytes-to_bytes k (n / 256) (omega arith))

pub length-int_to_bytes : (k n : ℕ) → length (int_to_bytes k n) ≡ k
length-int_to_bytes zero n = refl
length-int_to_bytes (suc k) n = ap suc (length-int_to_bytes k (n / 256))

-- A slice of at most `k` bytes decodes to a number below 256 ^ k.
pub from_little-lt : (k : ℕ) (bs : Bytes) → IsBytes bs → length bs ≤ k → from_little bs < pow256 k
from_little-lt zero [] h l = omega arith
from_little-lt zero (b ∷ bs) h l = absurd (omega arith)
from_little-lt (suc k) [] h l = omega (arith, from_little-lt k [] tt (omega arith))
from_little-lt (suc k) (b ∷ bs) h l = omega (arith, h.0, from_little-lt k bs h.1 (omega arith))

from_big-lt :
    (k m acc : ℕ) (bs : Bytes)
    → IsBytes bs
    → length bs ≤ k
    → acc < m
    → from_big acc bs < m * pow256 k
from_big-lt zero m acc [] h l a = omega arith
from_big-lt zero m acc (b ∷ bs) h l a = absurd (omega arith)
from_big-lt (suc k) m acc [] h l a = omega (arith, from_big-lt k m acc [] tt (omega arith) a)
from_big-lt (suc k) m acc (b ∷ bs) h l a =
    omega (
      arith,
      h.0,
      from_big-lt k (m * 256) (acc * 256 + b) bs h.1 (omega arith) (omega (arith, h.0)),
    )

pub int_from_bytes-lt :
    (e : Endianness) (k : ℕ) (bs : Bytes)
    → IsBytes bs
    → length bs ≤ k
    → int_from_bytes e bs < pow256 k
unfolding int_from_bytes
int_from_bytes-lt little k bs h l = from_little-lt k bs h l
int_from_bytes-lt big k bs h l = omega (arith, from_big-lt k 1 0 bs h l (omega arith))

pub byte_at-lt : (bs : Bytes) (i b : ℕ) → IsBytes bs → byte_at bs i ≡ ok b → b < 256
unfolding byte_at
byte_at-lt [] i b h e = cc
byte_at-lt (x ∷ bs) zero b h e = ground (arith, h.0)
byte_at-lt (x ∷ bs) (suc i) b h e = byte_at-lt bs i b h.1 e

-- An index inside the data raises nothing.
pub byte_at_total : (bs : Bytes) (i : ℕ) → i < length bs → (b : ℕ) × (byte_at bs i ≡ ok b)
unfolding byte_at
byte_at_total [] i h = absurd (omega arith)
byte_at_total (x ∷ bs) zero h = (x, refl)
byte_at_total (x ∷ bs) (suc i) h = byte_at_total bs i (omega arith)

pub sum-le : (bs : Bytes) → IsBytes bs → sum bs ≤ 255 * length bs
sum-le [] h = omega arith
sum-le (b ∷ bs) h = omega (arith, h.0, sum-le bs h.1)
