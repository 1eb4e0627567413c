-- ===== src/Vad/Load.antt =====
-- m_vad.py: the file of the model, its download and its checksum. What pyannote makes of the file is a
-- parameter of the module that uses it.
use live_translation.Base.{
  ◌≡◌, ap, sym, ◌∙◌, true, List, [], ◌∷◌, ◌++◌, ◌==◌, if◌then◌else◌, Bool-cases, inl, inr,
}
use live_translation.Data.{Text, Bytes, Result, ok, err, Error, runtime_error, index_error}
use live_translation.Ogg.Bytes.{bytes_eq}

-- What is at the path of the model.
pub data Place : Type 0 where
  missing : Place
  regular : Bytes → Place
  directory : Place

-- `while True`, on what `read` gives, up to the first empty part.
abbrev pub read_all : List Bytes → Bytes
read_all [] = []
read_all ([] ∷ bs) = []
read_all ((x ∷ xs) ∷ bs) = (x ∷ xs) ++ read_all bs

-- `split('/')`
abbrev pub split_slash : Text → Text → List Text
split_slash part [] = part ∷ []
split_slash part (c ∷ cs) =
    let ended = split_slash [] cs in
    let more = split_slash (part ++ c ∷ []) cs in if c == 47 then part ∷ ended else more

-- `[-2]`
abbrev pub last_but_one : List Text → Result Text
last_but_one [] = err index_error
last_but_one (x ∷ []) = err index_error
last_but_one (x ∷ y ∷ []) = ok x
last_but_one (x ∷ y ∷ z ∷ zs) = last_but_one (y ∷ z ∷ zs)

-- `hashlib.sha256(...).hexdigest()` is a parameter, and so is the URL and what it gives.
module _ (hexdigest : Bytes → Text) (vad_segmentation_url : Text) (parts : List Bytes) where
  abbrev pub check_model : Bytes → Result Text → Result Bytes
  check_model model_bytes (err e) = err e
  check_model model_bytes (ok sum) =
      if bytes_eq (hexdigest model_bytes) sum
      then ok model_bytes
      else err
          (runtime_error "Model has been downloaded but the SHA256 checksum does not not match.")

  abbrev pub checked : Bytes → Place × Result Bytes
  checked model_bytes = (
    regular model_bytes,
    check_model model_bytes (last_but_one (split_slash [] vad_segmentation_url)),
  )

  -- `load_vad_model`, up to the checksum: what is at the path afterwards, and the bytes.
  unfoldable pub load_vad_model : Place → Place × Result Bytes
  load_vad_model missing = checked (read_all parts)
  load_vad_model (regular model_bytes) = checked model_bytes
  load_vad_model directory = (directory, err (runtime_error "exists and is not a regular file"))

  -- What is loaded has the checksum that the URL names.
  load_vad_model-checksum :
      (at : Place) (model_bytes sum : Text)
      → last_but_one (split_slash [] vad_segmentation_url) ≡ ok sum
      → (load_vad_model at).1 ≡ ok model_bytes
      → bytes_eq (hexdigest model_bytes) sum ≡ true
  unfolding load_vad_model
  load_vad_model-checksum at model_bytes sum u h = by_place at h
    where
      same_bytes :
          (b : Bytes)
          → check_model b (ok sum) ≡ ok model_bytes
          → bytes_eq (hexdigest model_bytes) sum ≡ true
      same_bytes b q = elim (Bool-cases (bytes_eq (hexdigest b) sum)) [
        | inl e ↦
            let r : ok b ≡ ok model_bytes = rw e at q in
            let s : b ≡ model_bytes = cc in ap (λ x. bytes_eq (hexdigest x) sum) (sym s) ∙ e
        | inr e ↦ absurd (refused (rw e at q))
      ]
        where
          refused : {e : Error} → ◌≡◌ {A = Result Bytes} (err e) (ok model_bytes) → ⊥
          refused k = cc

      by_place :
          (p : Place)
          → (load_vad_model p).1 ≡ ok model_bytes
          → bytes_eq (hexdigest model_bytes) sum ≡ true
      by_place missing q =
          same_bytes (read_all parts) (ap (check_model (read_all parts)) (sym u) ∙ q)
      by_place (regular b) q = same_bytes b (ap (check_model b) (sym u) ∙ q)
      by_place directory q = cc
