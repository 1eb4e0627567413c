-- ===== src/Logger/Format.antt =====
-- logger.py: MyJSONFormatter on records and keys that it accepts.
use live_translation.Base.{
  ◌+◌, ◌<◌, ◌≡◌, refl, ap, ◌∙◌, Bool, true, false, not, Option, none, some, List, [], ◌∷◌,
  if◌then◌else◌, All, Bool-cases, inl, inr,
}
use live_translation.Base.Dict.{get, put, All-get, All-put}
use live_translation.Data.{Text, codes, ok, err, ◌>>=◌, value_error}
use live_translation.Ogg.Bytes.{bytes_eq}
use live_translation.Ogg.Page.Bounds.{bytes_eq→eq}
use live_translation.Logger.{
  Any, dict, other, field, no_fields, truncate_dict, is_builtin, Entries, fields_of, attribute,
  has_key, MyJsonFormatter, has_value, value_of, format_keys, add_extra, format,
}
use live_translation.Logger.Short.{IsShort, IsPlain, ArePlain, truncate_dict-IsShort}

abbrev pub IsPlainEntry : Text × Any → Type 0
IsPlainEntry e = IsPlain e.1

fields_of-ArePlain : (es : Entries) → All IsPlainEntry es → ArePlain (fields_of es)
unfolding IsPlain
fields_of-ArePlain [] h = tt
fields_of-ArePlain (e ∷ es) h = (h.0, fields_of-ArePlain es h.1)

put-IsPlainEntry :
    (es : Entries) (k : Text) (v : Any)
    → All IsPlainEntry es
    → IsPlain v
    → All IsPlainEntry (put bytes_eq es k v)
put-IsPlainEntry es k v h p = All-put bytes_eq IsPlainEntry es k v h p (λ j q. p)

-- Another key is found as before.
get-put_other :
    (es : Entries) (k j : Text) (v : Any)
    → bytes_eq k j ≡ false
    → get bytes_eq (put bytes_eq es k v) j ≡ get bytes_eq es j
unfolding get put
get-put_other [] k j v h = rw h
get-put_other (e ∷ es) k j v h = elim (Bool-cases (bytes_eq e.0 k)) [
  | inl q ↦
      let other_key : bytes_eq e.0 j ≡ false = ap (λ x. bytes_eq x j) (bytes_eq→eq e.0 k q) ∙ h in
      rw (q, get) (rw other_key)
  | inr q ↦
      rw (q, get) (ap (λ r. if bytes_eq e.0 j then some e.1 else r) (get-put_other es k j v h))
]

-- The keys of the formatter name attributes of every record, and none is there twice.
abbrev pub IsAccepted : List (Text × Text) → Type 0
IsAccepted [] = Unit
IsAccepted (e ∷ es) =
    (is_builtin e.1 ≡ true) × All (λ d. bytes_eq e.0 d.0 ≡ false) es × IsAccepted es

module _ (attributes : Entries) (time : Text) (plain : All IsPlainEntry attributes) where
  value_of-IsPlain : (value : Text) → IsPlain (value_of attributes time value)
  unfolding IsPlain
  value_of-IsPlain value = by_time (bytes_eq value (codes "asctime"))
    where
      by_get :
          (o : Option Any)
          → get bytes_eq attributes value ≡ o
          → IsPlain (elim o as (λ _. Any) [ none ↦ other (codes "None") | some v ↦ v ])
      by_get none q = tt
      by_get (some v) q = (All-get bytes_eq IsPlainEntry attributes value v plain q).2

      by_time : (b : Bool) → IsPlain (if b then other time else attribute attributes value)
      by_time true = tt
      by_time false = by_get (get bytes_eq attributes value) refl

  -- The loop over the keys raises nothing, and leaves no exception in the record.
  format_keys-plain :
      (es : List (Text × Text)) (log_record : Entries)
      → IsAccepted es
      → All (λ d. has_key log_record d.0 ≡ false) es
      → All IsPlainEntry log_record
      → (r : Entries) × (format_keys attributes time log_record es ≡ ok r) × All IsPlainEntry r
  format_keys-plain [] log_record a f p = (log_record, refl, p)
  format_keys-plain (e ∷ es) log_record a f p =
      let next = put bytes_eq log_record e.0 (value_of attributes time e.1) in
      let rest =
        format_keys-plain es next a.2 (still_free es a.1 f.1) (
          put-IsPlainEntry log_record e.0 (value_of attributes time e.1) p
            (value_of-IsPlain e.1)) in
      (
        rest.0,
        ap
              (λ b.
                if not b
                then err (value_error "Invalid value in fmt_keys")
                else if has_key log_record e.0
                then err (value_error "Duplicate key in fmt_keys")
                else format_keys attributes time next es)
              a.0
            ∙ ap
                (λ b.
                  if b
                  then err (value_error "Duplicate key in fmt_keys")
                  else format_keys attributes time next es)
                f.0
            ∙ rest.1,
        rest.2,
      )
    where
      still_free :
          (ds : List (Text × Text))
          → All (λ d. bytes_eq e.0 d.0 ≡ false) ds
          → All (λ d. has_key log_record d.0 ≡ false) ds
          → All
              (λ d.
                has_key (put bytes_eq log_record e.0 (value_of attributes time e.1)) d.0 ≡ false)
              ds
      still_free [] h k = tt
      still_free (d ∷ ds) h k = (
        ap (λ o. elim o as (λ _. Bool) [ none ↦ false | some v ↦ true ])
              (get-put_other log_record e.0 d.0 (value_of attributes time e.1) h.0)
            ∙ k.0,
        still_free ds h.1 k.1,
      )

  add_extra-plain :
      (es log_record : Entries)
      → All IsPlainEntry es
      → All IsPlainEntry log_record
      → All IsPlainEntry (add_extra attributes time log_record es)
  unfolding IsPlain
  add_extra-plain [] log_record h p = p
  add_extra-plain (e ∷ es) log_record h p =
      by_name (is_builtin e.0) _ _ (add_extra-plain es log_record h.1 p) (
        add_extra-plain es
          (put bytes_eq log_record (codes "extra") (dict (field e.0 e.1 no_fields))) h.1
          (put-IsPlainEntry log_record (codes "extra") (dict (field e.0 e.1 no_fields)) p
            (h.0, tt)))
    where
      by_name :
          (b : Bool) (xs ys : Entries)
          → All IsPlainEntry xs
          → All IsPlainEntry ys
          → All IsPlainEntry (if b then xs else ys)
      by_name true xs ys k l = k
      by_name false xs ys k l = l

  -- With a `max_length` above 0, and keys that name attributes of every record and are all different,
  -- a record without exceptions among its attributes is formatted, and no text of the outcome but
  -- the keys of its dicts is longer than `max_length` and the three dots.
  pub format-IsShort :
      (self : MyJsonFormatter)
      → 0 < self.max_length
      → IsAccepted self.fmt_keys
      → (v : Any) × (format attributes time self ≡ ok v) × IsShort (self.max_length + 3) v
  unfolding format IsPlain get
  format-IsShort self n a =
      let keys = format_keys-plain self.fmt_keys [] a (free self.fmt_keys) tt in
      let filled =
        if has_value self.fmt_keys (codes "extra")
        then add_extra attributes time keys.0 attributes
        else keys.0 in
      (
        truncate_dict self.max_length (dict (fields_of filled)),
        ap
            (λ r. r >>= λ log_record. ok (
              truncate_dict self.max_length (
                dict (
                  fields_of (
                    if has_value self.fmt_keys (codes "extra")
                    then add_extra attributes time log_record attributes
                    else log_record)))))
            keys.1,
        truncate_dict-IsShort self.max_length (dict (fields_of filled)) n (
            fields_of-ArePlain filled
              (all_plain (has_value self.fmt_keys (codes "extra")) keys.0 keys.2)),
      )
    where
      free : (ds : List (Text × Text)) → All (λ d. has_key [] d.0 ≡ false) ds
      free [] = tt
      free (d ∷ ds) = (refl, free ds)

      all_plain :
          (b : Bool) (r : Entries)
          → All IsPlainEntry r
          → All IsPlainEntry (if b then add_extra attributes time r attributes else r)
      all_plain true r h = add_extra-plain attributes r plain h
      all_plain false r h = h
