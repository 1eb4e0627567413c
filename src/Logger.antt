-- ===== src/Logger.antt =====
-- logger.py: what the JSON formatter makes of a log record before it is written as JSON.
pub mod Short
pub mod Format
use live_translation.Base.{
  ℕ, ◌+◌, ◌≡◌, Bool, true, false, not, ◌&&◌, Option, none, some, List, [], ◌∷◌, ◌++◌, length, take,
  ltb, ◌==◌, if◌then◌else◌,
}
use live_translation.Base.Dict.{get, put}
use live_translation.Data.{Text, codes, Result, ok, err, ◌>>=◌, value_error}
use live_translation.Ogg.Bytes.{bytes_eq}

-- What the code tells apart: dicts, lists and tuples, objects with `to_dict`, by what that gives,
-- exceptions and other values, both by what `str` gives. Sets, whose members may become equal, are left out.
pub data Kind : Type 0 where
  list tuple : Kind

mutual
  pub data Any : Type 0 where
    dict : Fields → Any
    sequence : Kind → Items → Any
    with_to_dict : Any → Any
    raised : Text → Any
    other : Text → Any

  pub data Fields : Type 0 where
    no_fields : Fields
    field : Text → Any → Fields → Fields

  pub data Items : Type 0 where
    no_items : Items
    item : Any → Items → Items

-- The branch of `truncate_value` for a value that `str` turns into a text.
abbrev pub truncate_text : ℕ → Text → Text
truncate_text max_length value_str =
    if ltb 0 max_length && ltb max_length (length value_str)
    then take max_length value_str ++ codes "..."
    else value_str

-- `truncate_dict`; the texts that it ends in are `other`.
unfoldable mutual
  pub truncate_dict : ℕ → Any → Any
  truncate_dict n (dict fs) = dict (truncate_fields n fs)
  truncate_dict n (sequence k xs) = sequence k (truncate_items n xs)
  truncate_dict n (with_to_dict d) = truncate_dict n d
  truncate_dict n (raised t) = other t
  truncate_dict n (other t) = other (truncate_text n t)

  pub truncate_fields : ℕ → Fields → Fields
  truncate_fields n no_fields = no_fields
  truncate_fields n (field k v fs) = field k (truncate_dict n v) (truncate_fields n fs)

  pub truncate_items : ℕ → Items → Items
  truncate_items n no_items = no_items
  truncate_items n (item x xs) = item (truncate_dict n x) (truncate_items n xs)

abbrev pub log_record_builtin_attrs : List Text
log_record_builtin_attrs =
    codes "args"
    ∷ codes "asctime"
    ∷ codes "created"
    ∷ codes "exc_info"
    ∷ codes "exc_text"
    ∷ codes "extra"
    ∷ codes "filename"
    ∷ codes "funcName"
    ∷ codes "levelname"
    ∷ codes "levelno"
    ∷ codes "lineno"
    ∷ codes "module"
    ∷ codes "msecs"
    ∷ codes "message"
    ∷ codes "msg"
    ∷ codes "name"
    ∷ codes "pathname"
    ∷ codes "process"
    ∷ codes "processName"
    ∷ codes "relativeCreated"
    ∷ codes "stack_info"
    ∷ codes "thread"
    ∷ codes "threadName"
    ∷ codes "taskName"
    ∷ []

abbrev pub is_builtin_of : List Text → Text → Bool
is_builtin_of [] t = false
is_builtin_of (x ∷ xs) t = let rest = is_builtin_of xs t in if bytes_eq x t then true else rest

abbrev pub is_builtin : Text → Bool
is_builtin t = is_builtin_of log_record_builtin_attrs t

-- The fields of a dict that is still being filled.
abbrev pub Entries : Type 0
Entries = List (Text × Any)

abbrev pub fields_of : Entries → Fields
fields_of [] = no_fields
fields_of (e ∷ es) = field e.0 e.1 (fields_of es)

-- `getattr(record, value, None)`
abbrev pub attribute : Entries → Text → Any
attribute attributes name = elim (get bytes_eq attributes name) as (λ _. Any) [
  | none ↦ other (codes "None")
  | some v ↦ v
]

abbrev pub has_key : Entries → Text → Bool
has_key es k = elim (get bytes_eq es k) as (λ _. Bool) [ none ↦ false | some v ↦ true ]

-- The formatter: `fmt_keys` and `max_length`.
pub record MyJsonFormatter : Type 0 where
  pub max_length : ℕ
  pub fmt_keys : List (Text × Text)

abbrev pub has_value : List (Text × Text) → Text → Bool
has_value [] t = false
has_value (e ∷ es) t = let rest = has_value es t in if bytes_eq e.1 t then true else rest

-- A record is its attributes, and `time` what `formatTime` gives.
module _ (attributes : Entries) (time : Text) where
  abbrev pub value_of : Text → Any
  value_of value =
      if bytes_eq value (codes "asctime") then other time else attribute attributes value

  abbrev pub format_keys : Entries → List (Text × Text) → Result Entries
  format_keys log_record [] = ok log_record
  format_keys log_record (e ∷ es) =
      let rest = format_keys (put bytes_eq log_record e.0 (value_of e.1)) es in
      if not (is_builtin e.1)
      then err (value_error "Invalid value in fmt_keys")
      else if has_key log_record e.0
      then err (value_error "Duplicate key in fmt_keys")
      else rest

  -- The loop over `record.__dict__`.
  abbrev pub add_extra : Entries → Entries → Entries
  add_extra log_record [] = log_record
  add_extra log_record (e ∷ es) =
      let extra = dict (field e.0 e.1 no_fields) in
      let added = add_extra (put bytes_eq log_record (codes "extra") extra) es in
      let rest = add_extra log_record es in if is_builtin e.0 then rest else added

  -- `format`, but for the JSON text.
  unfoldable pub format : MyJsonFormatter → Result Any
  unfolding truncate_dict
  format self = format_keys [] self.fmt_keys >>= λ log_record. ok (
      truncate_dict self.max_length (
        dict (
          fields_of (
            if has_value self.fmt_keys (codes "extra")
            then add_extra log_record attributes
            else log_record))))

-- `SimpleJSONFormatter.format`, but for the JSON text, on `record.msg` and the attributes. `json_loads` is
-- none where it raises a TypeError or a ValueError.
module _ (json_loads : Any → Option Any) where
  abbrev pub is_private : Text → Bool
  is_private [] = false
  is_private (c ∷ cs) = c == 95

  abbrev pub decoded : Any → Any
  decoded (with_to_dict d) = d
  decoded v = elim (json_loads v) as (λ _. Any) [ none ↦ v | some w ↦ w ]

  abbrev pub extra_of : Entries → Entries
  extra_of [] = []
  extra_of (e ∷ es) =
      let rest = extra_of es in
      if not (is_builtin e.0) && not (is_private e.0) then (e.0, decoded e.1) ∷ rest else rest

  abbrev pub with_extra : Any → Entries → Entries
  with_extra msg [] = (codes "message", msg) ∷ []
  with_extra msg (e ∷ es) = (codes "message", msg) ∷ (codes "extra", dict (fields_of (e ∷ es))) ∷ []

  unfoldable format_simple : ℕ → Any → Entries → Any
  unfolding truncate_dict
  format_simple max_length msg attributes =
      truncate_dict max_length (dict (fields_of (with_extra msg (extra_of attributes))))
