-- ===== src/Logger/Short.antt =====
-- logger.py: how long the texts of a formatted record are.
use live_translation.Base.{ℕ, ◌+◌, ◌≤◌, ◌<◌, length, take, arith, length-append, length-take}
use live_translation.Data.{Text, codes}
use live_translation.Logger.{
  Any, dict, sequence, with_to_dict, raised, other, Fields, no_fields, field, Items, no_items, item,
  truncate_text, truncate_dict, truncate_fields, truncate_items,
}

-- No text below a value is longer than this, but for the keys of dicts, which the code does not shorten.
unfoldable mutual
  pub IsShort : ℕ → Any → Type 0
  IsShort n (dict fs) = AreShort n fs
  IsShort n (sequence k xs) = AllShort n xs
  IsShort n (with_to_dict d) = IsShort n d
  IsShort n (raised t) = length t ≤ n
  IsShort n (other t) = length t ≤ n

  pub AreShort : ℕ → Fields → Type 0
  AreShort n no_fields = Unit
  AreShort n (field k v fs) = IsShort n v × AreShort n fs

  pub AllShort : ℕ → Items → Type 0
  AllShort n no_items = Unit
  AllShort n (item x xs) = IsShort n x × AllShort n xs

-- No exception is below a value.
unfoldable mutual
  pub IsPlain : Any → Type 0
  IsPlain (dict fs) = ArePlain fs
  IsPlain (sequence k xs) = AllPlain xs
  IsPlain (with_to_dict d) = IsPlain d
  IsPlain (raised t) = ⊥
  IsPlain (other t) = Unit

  pub ArePlain : Fields → Type 0
  ArePlain no_fields = Unit
  ArePlain (field k v fs) = IsPlain v × ArePlain fs

  pub AllPlain : Items → Type 0
  AllPlain no_items = Unit
  AllPlain (item x xs) = IsPlain x × AllPlain xs

truncate_text-length : (n : ℕ) (t : Text) → 0 < n → length (truncate_text n t) ≤ n + 3
truncate_text-length n t h =
    let a = length-append (take n t) (codes "...") in let b = length-take n t in ground arith

mutual
  unfolding truncate_dict IsShort IsPlain

  pub truncate_dict-IsShort :
      (n : ℕ) (v : Any) → 0 < n → IsPlain v → IsShort (n + 3) (truncate_dict n v)
  truncate_dict-IsShort n (dict fs) h p = truncate_fields-AreShort n fs h p
  truncate_dict-IsShort n (sequence k xs) h p = truncate_items-AllShort n xs h p
  truncate_dict-IsShort n (with_to_dict d) h p = truncate_dict-IsShort n d h p
  truncate_dict-IsShort n (raised t) h p = absurd p
  truncate_dict-IsShort n (other t) h p = truncate_text-length n t h

  truncate_fields-AreShort :
      (n : ℕ) (fs : Fields) → 0 < n → ArePlain fs → AreShort (n + 3) (truncate_fields n fs)
  truncate_fields-AreShort n no_fields h p = tt
  truncate_fields-AreShort n (field k v fs) h p =
      (truncate_dict-IsShort n v h p.0, truncate_fields-AreShort n fs h p.1)

  truncate_items-AllShort :
      (n : ℕ) (xs : Items) → 0 < n → AllPlain xs → AllShort (n + 3) (truncate_items n xs)
  truncate_items-AllShort n no_items h p = tt
  truncate_items-AllShort n (item x xs) h p =
      (truncate_dict-IsShort n x h p.0, truncate_items-AllShort n xs h p.1)
