-- ===== src/Simulate/Recordings.antt =====
-- simulate.py: the recordings that are converted, and the folders that the driver goes through. What
-- `os.listdir` gives is an argument, and a name has no slash.
use live_translation.Base.{
  ℕ, ◌+◌, ◌-◌, ◌≡◌, ap, Bool, true, false, not, ◌&&◌, Option, none, some, List, [], ◌∷◌, ◌++◌, ◌==◌,
  if◌then◌else◌, length, drop, take, leb,
}
use live_translation.Data.{Text, Bytes, codes}
use live_translation.Ogg.Bytes.{bytes_eq}
use live_translation.Simulate.{SimulationPipeline}
use live_translation.Simulate.Driver.{
  audio, Driver, Step, going, then_step, DriverLib, exists, write, run_pipelines,
}

abbrev audio_extensions : List Text
audio_extensions =
    codes ".aac"
    ∷ codes ".ac3"
    ∷ codes ".aiff"
    ∷ codes ".aif"
    ∷ codes ".alac"
    ∷ codes ".amr"
    ∷ codes ".ape"
    ∷ codes ".au"
    ∷ codes ".dts"
    ∷ codes ".eac3"
    ∷ codes ".flac"
    ∷ codes ".m4a"
    ∷ codes ".mka"
    ∷ codes ".mp3"
    ∷ codes ".ogg"
    ∷ codes ".opus"
    ∷ codes ".ra"
    ∷ codes ".rm"
    ∷ codes ".tta"
    ∷ codes ".voc"
    ∷ codes ".wav"
    ∷ codes ".wma"
    ∷ codes ".wv"
    ∷ codes ".caf"
    ∷ codes ".gsm"
    ∷ codes ".mp2"
    ∷ codes ".spx"
    ∷ codes ".aob"
    ∷ []

-- `name.endswith(ext)`
abbrev pub ends_with : Text → Text → Bool
ends_with name ext =
    leb (length ext) (length name) && bytes_eq (drop (length name - length ext) name) ext

abbrev pub has_extension : Text → List Text → Bool
has_extension name [] = false
has_extension name (x ∷ xs) =
    let rest = has_extension name xs in if ends_with name x then true else rest

-- The place of the last dot.
abbrev last_dot : ℕ → Text → Option ℕ → Option ℕ
last_dot i [] best = best
last_dot i (c ∷ cs) best = last_dot (i + 1) cs (if c == 46 then some i else best)

abbrev pub only_dots : Text → Bool
only_dots [] = true
only_dots (c ∷ cs) = c == 46 && only_dots cs

abbrev pub cut_at : Text → Option ℕ → Text
cut_at name none = name
cut_at name (some i) = if only_dots (take i name) then name else take i name

-- `os.path.splitext(name)[0]`
abbrev pub stem : Text → Text
stem name = cut_at name (last_dot 0 name none)

-- `os.path.join`
abbrev pub join_path : Text → Text → Text
join_path folder name = folder ++ (codes "/" ++ name)

unfoldable pub output_file : Text → Text → Text
output_file output_folder name =
    join_path (join_path output_folder (stem name)) (stem name ++ codes ".ogg")

-- The loop over the input folder. `convert` is what ffmpeg leaves of a recording, if anything.
module _ (convert : Text → Option Bytes) (input_folder output_folder : Text) where
  abbrev keep_audio : Driver → Text → Option Bytes → Driver
  keep_audio self path none = self
  keep_audio self path (some bs) = write self path (audio bs)

  abbrev pub convert_file : Driver → Text → Driver
  convert_file self name =
      if not (has_extension name audio_extensions)
      then self
      else if exists self (output_file output_folder name)
      then self
      else keep_audio self (output_file output_folder name) (convert (join_path input_folder name))

  unfoldable pub convert_files : Driver → List Text → Driver
  unfolding output_file
  convert_files self [] = self
  convert_files self (n ∷ ns) = convert_files (convert_file self n) ns

-- `file_path` and `new_file_beginning`
unfoldable pub file_path : Text → Text → Text
file_path output_folder folder_name =
    join_path (join_path output_folder (stem folder_name)) (folder_name ++ codes ".ogg")

unfoldable pub new_file_beginning : Text → Text → Text
new_file_beginning output_folder folder_name =
    join_path (join_path output_folder (stem folder_name)) folder_name

module _ (lib : DriverLib) (output_folder : Text) (pipelines : List SimulationPipeline) where
  -- The loop over the folders that the first loop has made.
  unfoldable pub run_folders : Driver → List Text → Step
  unfolding file_path new_file_beginning
  run_folders self [] = going self
  run_folders self (n ∷ ns) =
      then_step
        (if ends_with (file_path output_folder n) (codes ".ogg")
          then run_pipelines lib self (file_path output_folder n)
              (new_file_beginning output_folder n) pipelines
          else going self)
        (λ s. run_folders s ns)

-- The second loop looks for a recording where the first one has written it, as long as its name has no
-- dot but that of its extension.
file_path-output_file :
    (output_folder name : Text)
    → last_dot 0 (stem name) none ≡ none
    → file_path output_folder (stem name) ≡ output_file output_folder name
unfolding file_path output_file
file_path-output_file output_folder name h =
    ap (λ o. join_path (join_path output_folder (cut_at (stem name) o)) (stem name ++ codes ".ogg"))
      h
