-- ===== src/Tests/Logging.antt =====
-- A log record with two extra attributes.
use live_translation.Base.{◌+◌, ◌≡◌, refl, [], ◌∷◌, All, arith}
use live_translation.Base.Dict.{get, put}
use live_translation.Data.{codes, ok}
use live_translation.Logger.{
  Any, dict, field, no_fields, other, with_to_dict, Entries, MyJsonFormatter, format, truncate_dict,
}
use live_translation.Logger.Short.{IsShort, IsPlain}
use live_translation.Logger.Format.{IsPlainEntry, format-IsShort}

abbrev attributes : Entries
attributes =
    (codes "msg", other (codes "a long message"))
    ∷ (codes "data_package", with_to_dict (dict (field (codes "id") (other (codes "7")) no_fields)))
    ∷ (codes "client", other (codes "c"))
    ∷ []

abbrev formatter : MyJsonFormatter
formatter = record {
  max_length = 6;
  fmt_keys =
      (codes "at", codes "asctime")
      ∷ (codes "text", codes "msg")
      ∷ (codes "more", codes "extra")
      ∷ [];
}

-- The second extra attribute has taken the place of the first.
formatted :
    format attributes (codes "12:00") formatter
    ≡ ok (
        dict (
          field (codes "at") (other (codes "12:00")) (
            field (codes "text") (other (codes "a long...")) (
              field (codes "more") (other (codes "None")) (
                field
                  (codes "extra")
                  (dict (field (codes "client") (other (codes "c")) no_fields))
                  no_fields)))))
unfolding format truncate_dict get put
formatted = refl

attributes-IsPlainEntry : All IsPlainEntry attributes
unfolding IsPlain
attributes-IsPlainEntry = (tt, ((tt, tt), (tt, tt)))

format-IsShort_example :
    (v : Any) × (format attributes (codes "12:00") formatter ≡ ok v) × IsShort (6 + 3) v
format-IsShort_example =
    format-IsShort attributes (codes "12:00") attributes-IsPlainEntry formatter (omega arith)
      (refl, (refl, (refl, tt)), (refl, (refl, tt), (refl, tt, tt)))
