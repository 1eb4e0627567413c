-- ===== src/Data.antt =====
-- data.py, Python's exceptions, and the marks that a module leaves on a data package.
-- Times are integers in a fixed unit, one sample of the stream (1 / sample_rate seconds);
-- probabilities are integers in a fixed unit too.
use Prim.Native.Char.{code}
use live_translation.Base.{
  ℕ, ℤ, String, Option, none, some, List, [], ◌∷◌, ◌≡◌, refl, ◌⊎◌, inl, inr,
}

-- A `str` is its list of code points, and `bytes` are numbers below 256.
abbrev pub Text : Type 0
Text = List ℕ

-- The code points of a literal.
abbrev pub codes : String → Text
codes String.[] = []
codes (String.◌∷◌ c s) = code c ∷ codes s

abbrev pub Bytes : Type 0
Bytes = List ℕ

pub record Word : Type 0 where
  pub word : Text
  pub start : ℤ
  pub end : ℤ
  pub probability : ℤ

pub record TextSegment : Type 0 where
  pub text : Text
  pub start : ℤ
  pub end : ℤ
  pub words : Option (List Word)
  pub probability : Option ℤ

-- An entry of `vad_result`: the dict with the keys start, end and segments.
pub record Chunk : Type 0 where
  pub start : ℤ
  pub end : ℤ
  pub segments : List (ℤ × ℤ)

pub record AudioData : Type 0 where
  pub raw_audio_data : Bytes
  pub audio_buffer : Option Bytes
  pub audio_buffer_time : Option ℤ
  pub audio_buffer_start_after : Option ℤ
  pub audio_data : Option (List ℤ)
  pub audio_data_sample_rate : Option ℕ
  pub vad_result : Option (List Chunk)
  pub language : Option (Text × ℤ)
  pub transcribed_segments : Option (List TextSegment)
  pub confirmed_words : Option (List Word)
  pub unconfirmed_words : Option (List Word)
  pub translations : Option (List (Text × Text))

-- What the code raises, or lets Python raise.
pub data Error : Type 0 where
  exception : String → Error
  value_error : String → Error
  index_error : Error
  zero_division : Error
  assertion_error : Error
  unicode_error : Error
  key_error : Error
  name_error : Error
  runtime_error : String → Error

-- What a Python expression comes to: an exception, or a value.
pub data Result {ℓ} (Value : Type ℓ) : Type ℓ where
  err : Error → Result Value
  ok : Value → Result Value

-- The next expression is only evaluated on a value.
infixl 5 ◌>>=◌
abbrev pub ◌>>=◌ {ℓ ℓ'} :
    {Value : Type ℓ} {Next : Type ℓ'} → Result Value → (Value → Result Next) → Result Next
err raised >>= next = err raised
ok value >>= next = next value

-- Of the statuses of a data package the modules only assign EXIT; `running` is any other.
pub data Status : Type 0 where
  running exit : Status

-- `dp.data` (here `audio`) and the fields of `dpm` that a module writes.
pub record Package : Type 0 where
  pub audio : Option AudioData
  pub status : Status
  pub message : String

-- What one call of a module's `execute` leaves: its own state, the package, and the exception.
pub record Outcome {ℓ} (S : Type ℓ) : Type ℓ where
  pub state : S
  pub dp : Package
  pub raised : Option Error

-- How a call ends: by an exception, by leaving the pipeline, or with the data written back.
abbrev pub raising {ℓ} : {S : Type ℓ} → S → Package → Error → Outcome S
raising s dp e = record { state = s; dp = dp; raised = some e }

abbrev pub exiting {ℓ} : {S : Type ℓ} → S → Package → String → Outcome S
exiting s dp m = record { state = s; dp = record dp { status = exit; message = m }; raised = none }

abbrev pub passing {ℓ} : {S : Type ℓ} → S → Package → AudioData → Outcome S
passing s dp d = record { state = s; dp = record dp { audio = some d }; raised = none }

-- To split on a result and keep the equation.
pub Result-cases {ℓ} :
    {A : Type ℓ} (m : Result A) → ((e : Error) × (m ≡ err e)) ⊎ ((a : A) × (m ≡ ok a))
Result-cases (ok a) = inr (a, refl)
Result-cases (err e) = inl (e, refl)
