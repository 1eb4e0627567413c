-- ===== src/Config.antt =====
-- Config.py: the settings from the environment. What Python reads as a number, the files of the system and
-- `str.lower` are parameters; `env` is `os.getenv` once the .env file has been read.
pub mod Typed
use live_translation.Base.{
  ℕ, ℤ, pos, ◌≡◌, refl, ap, sym, ◌∙◌, Bool, true, false, not, ◌&&◌, ◌||◌, Option, none, some, List,
  [], ◌∷◌, ◌⊎◌, inl, inr, if◌then◌else◌, Option-cases, String,
}
use live_translation.Base.Dict.{get}
use live_translation.Data.{Text, codes}
use live_translation.Ogg.Bytes.{bytes_eq}

-- `Union[str, int, float, bool]`; a float is a whole number of a fixed unit.
pub data Value : Type 0 where
  text : Text → Value
  number : ℤ → Value
  decimal : ℤ → Value
  truth : Bool → Value

-- `int(text)`, `float(text)`, `int(x)` of a float x, `float(n)` of an integer n, `os.path.exists` and
-- `str.lower`.
pub record ConfigLib : Type 0 where
  pub to_int : Text → Option ℤ
  pub to_float : Text → Option ℤ
  pub trunc : ℤ → ℤ
  pub as_float : ℤ → ℤ
  pub path_exists : Text → Bool
  pub lower : Text → Text

-- What a check makes of a value: the value, and whether `valid_config` has stayed as it was.
abbrev pub Checked : Type 0
Checked = Value × Bool

abbrev accept : Value → Checked
accept v = (v, true)

abbrev pub reject : Value → Checked
reject default = (default, false)

abbrev pub is_in : Text → List Text → Bool
is_in t [] = false
is_in t (x ∷ xs) = let rest = is_in t xs in if bytes_eq t x then true else rest

abbrev pub one_of : List Text → Value → Value → Checked
one_of valid (text t) default = if is_in t valid then accept (text t) else reject default
one_of valid (number n) default = reject default
one_of valid (decimal x) default = reject default
one_of valid (truth b) default = reject default

unfoldable pub validate_model : Value → Value → Checked
validate_model =
    one_of (codes "tiny" ∷ codes "base" ∷ codes "small" ∷ codes "medium" ∷ codes "large" ∷ [])

unfoldable pub validate_task : Value → Value → Checked
validate_task = one_of (codes "transcribe" ∷ codes "translate" ∷ [])

abbrev pub parsed : (ℤ → Value) → Option ℤ → Value → Checked
parsed make none default = reject default
parsed make (some n) default = accept (make n)

abbrev pub unit_of : Bool → ℤ
unit_of b = if b then pos 1 else pos 0

module _ (lib : ConfigLib) where
  unfoldable pub validate_path : Value → Value → Checked
  validate_path (text t) default = if lib.path_exists t then accept (text t) else reject default
  validate_path (number n) default = reject default
  validate_path (decimal x) default = reject default
  validate_path (truth b) default = reject default

  unfoldable pub validate_float : Value → Value → Checked
  validate_float (text t) default = parsed decimal (lib.to_float t) default
  validate_float (number n) default = accept (decimal (lib.as_float n))
  validate_float (decimal x) default = accept (decimal x)
  validate_float (truth b) default = accept (decimal (lib.as_float (unit_of b)))

  unfoldable pub validate_int : Value → Value → Checked
  validate_int (text t) default = parsed number (lib.to_int t) default
  validate_int (number n) default = accept (number n)
  validate_int (decimal x) default = accept (number (lib.trunc x))
  validate_int (truth b) default = accept (number (unit_of b))

  unfoldable pub validate_bool : Value → Value → Checked
  validate_bool (text t) default =
      if is_in (lib.lower t) (codes "true" ∷ codes "false" ∷ [])
      then accept (truth (bytes_eq (lib.lower t) (codes "true")))
      else reject default
  validate_bool (number n) default = reject default
  validate_bool (decimal x) default = reject default
  validate_bool (truth b) default = accept (truth b)

abbrev pub or_default : Option Text → Value → Value
or_default none default = default
or_default (some t) default = text t

-- `get_variable`, with a check or without.
abbrev pub get_variable : (Text → Option Text) → Text → Value → (Value → Value → Checked) → Checked
get_variable env name default check = check (or_default (env name) default) default

abbrev pub unchecked : Value → Value → Checked
unchecked v default = accept v

-- A setting: its key, the variable, the default, and whether it is an integer.
abbrev pub Setting : Type 0
Setting = Text × Text × Value × Bool

abbrev pub variables : List Setting
variables =
    (codes "HOST", codes "TRANSCRIPTION_SERVER_HOST", text (codes "0.0.0.0"), false)
    ∷ (
      codes "EXTERNALHOST",
      codes "TRANSCRIPTION_SERVER_EXTERNAL_HOST",
      text (codes "127.0.0.1"),
      false,
    )
    ∷ (codes "TCPPORT", codes "TRANSCRIPTION_SERVER_PORT_TCP", number (pos 5000), true)
    ∷ (codes "UDPPORT", codes "TRANSCRIPTION_SERVER_PORT_UDP", number (pos 5001), true)
    ∷ (
      codes "SECRET_TOKEN",
      codes "TRANSCRIPTION_SERVER_SECRET",
      text (codes "your_secret_token"),
      false,
    )
    ∷ (
      codes "HEALTH_CHECK_PORT",
      codes "TRANSCRIPTION_SERVER_HEALTH_CHECK_PORT",
      number (pos 8001),
      true,
    )
    ∷ (
      codes "PROMETHEUS_PORT",
      codes "TRANSCRIPTION_SERVER_PROMETHEUS_PORT",
      number (pos 2112),
      true,
    )
    ∷ []

module _ (lib : ConfigLib) (env : Text → Option Text) where
  abbrev pub read_setting : Setting → Checked
  read_setting s = get_variable env s.1 s.2 (if s.3 then validate_int lib else unchecked)

  -- The dictionary, and `valid_config`.
  abbrev pub read_settings : List Setting → List (Text × Value) × Bool
  read_settings [] = ([], true)
  read_settings (s ∷ ss) =
      let v = read_setting s in let rest = read_settings ss in ((s.0, v.0) ∷ rest.0, v.1 && rest.1)

  -- None where the process exits.
  unfoldable pub load_settings : Option (List (Text × Value))
  unfolding validate_int
  load_settings = let r = read_settings variables in if r.1 then some r.0 else none
