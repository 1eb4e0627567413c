-- ===== src/Config/Typed.antt =====
-- Config.py: the types of the settings.
use live_translation.Base.{
  ℕ, String, pos, ℤ, ◌≡◌, Bool, true, false, Option, none, some, List, [], ◌∷◌, ◌⊎◌,
}
use live_translation.Base.Dict.{get}
use live_translation.Data.{Text, codes}
use live_translation.Ogg.Bytes.{bytes_eq}
use live_translation.Config.{Value, text, number, ConfigLib, Checked, Setting}

-- An integer where one is asked for, and a text elsewhere.
abbrev pub HasType : Bool → Value → Type 0
HasType true v = (n : ℤ) × (v ≡ number n)
HasType false v = (t : Text) × (v ≡ text t)

module _ (lib : ConfigLib) (env : Text → Option Text) where
  -- A value is the default, or what the environment says, as an integer where one is asked for.
  abbrev Taken : Setting → Value → Type 0
  Taken (k, name, default, true) v =
      (n : ℤ) × (v ≡ number n)
      × (((env name ≡ none) × (number n ≡ default))
          ⊎ ((t : Text) × (env name ≡ some t) × (lib.to_int t ≡ some n)))
  Taken (k, name, default, false) v =
      (t : Text) × (v ≡ text t) × (((env name ≡ none) × (text t ≡ default)) ⊎ (env name ≡ some t))

  -- The keys in their order, each with its value.
  abbrev IsTyped : List Setting → List (Text × Value) → Type 0
  IsTyped [] [] = Unit
  IsTyped [] (e ∷ es) = ⊥
  IsTyped (s ∷ ss) [] = ⊥
  IsTyped (s ∷ ss) (e ∷ es) = (e.0 ≡ s.0) × Taken s e.1 × IsTyped ss es

  -- Some variable is set to a text that is no integer, where one is asked for.
  data HasUnreadable : List Setting → Type 0 where
    here :
        {s : Setting} {ss : List Setting} (t : Text)
        → s.3 ≡ true
        → env s.1 ≡ some t
        → lib.to_int t ≡ none
        → HasUnreadable (s ∷ ss)
    later : {s : Setting} {ss : List Setting} → HasUnreadable ss → HasUnreadable (s ∷ ss)

  -- A setting is read by its type, or it is not readable.
  data Read (s : Setting) (c : Checked) : Type 0 where
    reads : c.1 ≡ true → Taken s c.0 → Read s c
    fails :
        (t : Text) → c.1 ≡ false → s.3 ≡ true → env s.1 ≡ some t → lib.to_int t ≡ none → Read s c

  abbrev HasDefaults : List Setting → Type 0
  HasDefaults [] = Unit
  HasDefaults (s ∷ ss) = HasType s.3 s.2 × HasDefaults ss

  -- An integer under this key: the default where the variable is not set, or else what its text is read as.
  abbrev HasPort : List (Text × Value) → String → String → ℕ → Type 0
  HasPort s key variable default =
      (n : ℤ) × (get bytes_eq s (codes key) ≡ some (number n))
      × (((env (codes variable) ≡ none) × (n ≡ pos default))
          ⊎ ((t : Text) × (env (codes variable) ≡ some t) × (lib.to_int t ≡ some n)))

  -- A text under this key: the default where the variable is not set, or else its text.
  abbrev HasText : List (Text × Value) → String → String → String → Type 0
  HasText s key variable default =
      (t : Text) × (get bytes_eq s (codes key) ≡ some (text t))
      × (((env (codes variable) ≡ none) × (t ≡ codes default)) ⊎ (env (codes variable) ≡ some t))

  -- The variable is set to a text that is no integer.
  abbrev pub IsUnreadable : String → Type 0
  IsUnreadable variable = (t : Text) × (env (codes variable) ≡ some t) × (lib.to_int t ≡ none)

  abbrev FailsAt : List Setting → Type 0
  FailsAt [] = ⊥
  FailsAt (s ∷ ss) =
      ((s.3 ≡ true) × ((t : Text) × (env s.1 ≡ some t) × (lib.to_int t ≡ none))) ⊎ FailsAt ss

  -- The settings as main.py reads them.
  abbrev pub HasSettings : List (Text × Value) → Type 0
  HasSettings s =
      HasText s "HOST" "TRANSCRIPTION_SERVER_HOST" "0.0.0.0"
      × HasText s "EXTERNALHOST" "TRANSCRIPTION_SERVER_EXTERNAL_HOST" "127.0.0.1"
      × HasPort s "TCPPORT" "TRANSCRIPTION_SERVER_PORT_TCP" 5000
      × HasPort s "UDPPORT" "TRANSCRIPTION_SERVER_PORT_UDP" 5001
      × HasText s "SECRET_TOKEN" "TRANSCRIPTION_SERVER_SECRET" "your_secret_token"
      × HasPort s "HEALTH_CHECK_PORT" "TRANSCRIPTION_SERVER_HEALTH_CHECK_PORT" 8001
      × HasPort s "PROMETHEUS_PORT" "TRANSCRIPTION_SERVER_PROMETHEUS_PORT" 2112
