-- ===== src/Simulate/Resume.antt =====
-- simulate.py: a second run of the driver, on what the first one has left on the disk.
use live_translation.Base.{◌≡◌, ap, ◌∙◌, Bool, true, false, none, some, List, ◌∷◌, if◌then◌else◌}
use live_translation.Base.Dict.{get, pop, get-put}
use live_translation.Data.{Text, Word, ok, err, name_error}
use live_translation.Ogg.Bytes.{bytes_eq}
use live_translation.Udp.Routing.{bytes_eq_refl}
use live_translation.LiveStats.Timing.{LivePackage, Stats, stats}
use live_translation.Simulate.{SimulationPipeline}
use live_translation.Simulate.Files.{simulation_file, stats_file, transcript_file}
use live_translation.Simulate.Driver.{
  simulation, transcript, report, Driver, Step, going, failing, then_step, DriverLib, write,
  simulate_once, transcribe_once, keep_simulation, simulates, transcribes, log_call, load_live,
  load_transcript, save_stats, measure, compare_once, run_pipeline, run_pipelines,
}

-- The disk has the simulation, the transcript, and these can be compared.
pub record IsResumed (lib : DriverLib) (self : Driver) (beginning : Text) (p : SimulationPipeline)
    : Type 0 where
  pub live : List LivePackage
  pub words : List Word
  pub result : Stats
  pub simulated : get bytes_eq self.disk (simulation_file beginning p) ≡ some (simulation live)
  pub transcribed : get bytes_eq self.disk (transcript_file beginning) ≡ some (transcript words)
  pub compared : stats lib.tenth lib.text lib.words live words ≡ ok result

module _ (lib : DriverLib) (self : Driver) (file_path beginning : Text) (p : SimulationPipeline)
    (r : IsResumed lib self beginning p) where
  simulate_once-going : simulate_once lib self file_path beginning p ≡ going self
  unfolding simulate_once
  simulate_once-going =
      ap
        (λ o.
          if elim o as (λ _. Bool) [ none ↦ false | some f ↦ true ]
          then going self
          else keep_simulation lib (log_call self (simulates file_path p.name)) file_path beginning
              p (lib.simulate_live_audio_stream file_path p))
        r.simulated

  transcribe_once-same : transcribe_once lib self file_path beginning ≡ self
  unfolding transcribe_once
  transcribe_once-same =
      ap
        (λ o.
          if elim o as (λ _. Bool) [ none ↦ false | some f ↦ true ]
          then self
          else write (log_call self (transcribes file_path)) (transcript_file beginning)
              (transcript (lib.transcribe_audio file_path)))
        r.transcribed

  compare_once-save_stats : compare_once lib self beginning p ≡ save_stats lib self beginning p
  compare_once-save_stats =
      ap
        (λ o.
          measure lib self beginning p (load_live lib o)
            (load_transcript lib (get bytes_eq self.disk (transcript_file beginning))))
        r.simulated
      ∙ ap (λ o. measure lib self beginning p (ok r.live) (load_transcript lib o)) r.transcribed
      ∙ ap
          (λ m. elim m as (λ _. Step) [
            | err e ↦ failing self e
            | ok result ↦ save_stats lib self beginning p
          ])
          r.compared

  run_pipeline-save_stats :
      run_pipeline lib self file_path beginning p ≡ save_stats lib self beginning p
  unfolding run_pipeline
  run_pipeline-save_stats =
      ap
        (λ s.
          then_step s
            (λ d. compare_once lib (transcribe_once lib d file_path beginning) beginning p))
        simulate_once-going
      ∙ ap (λ d. compare_once lib d beginning p) transcribe_once-same
      ∙ compare_once-save_stats

-- A run of the driver that has not come to its `import json`: where the simulation of the next pipeline
-- and the transcript are on the disk, and can be compared, it simulates, requests and transcribes
-- nothing, but ends by a NameError in the middle of the stats file of this pipeline, whatever pipelines
-- follow.
pub run_pipelines-resumed :
    (lib : DriverLib) (self : Driver) (file_path beginning : Text) (p : SimulationPipeline)
    (ps : List SimulationPipeline)
    → IsResumed lib self beginning p
    → self.json_bound ≡ false
    → ((run_pipelines lib self file_path beginning (p ∷ ps)).raised ≡ some name_error)
      × ((run_pipelines lib self file_path beginning (p ∷ ps)).driver.calls ≡ self.calls)
      × (get bytes_eq
            (run_pipelines lib self file_path beginning (p ∷ ps)).driver.disk
            (stats_file beginning p)
          ≡ some (report false))
unfolding run_pipelines save_stats
run_pipelines-resumed lib self file_path beginning p ps r j =
    let path = stats_file beginning p in
    let removed : Driver = record self { disk = pop bytes_eq self.disk path } in
    let last : Step = failing (write removed path (report false)) name_error in
    let stop : save_stats lib self beginning p ≡ last =
      ap
        (λ b.
          if b
          then going (write removed path (report true))
          else failing (write removed path (report false)) name_error)
        j in
    let all : run_pipelines lib self file_path beginning (p ∷ ps) ≡ last =
      ap (λ s. then_step s (λ d. run_pipelines lib d file_path beginning ps))
        (run_pipeline-save_stats lib self file_path beginning p r ∙ stop) in
    (
      ap (λ s. s.raised) all,
      ap (λ s. s.driver.calls) all,
      ap (λ s. get bytes_eq s.driver.disk path) all
          ∙ get-put bytes_eq (pop bytes_eq self.disk path) path (report false) (bytes_eq_refl path),
    )
