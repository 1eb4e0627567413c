-- ===== src/Simulate/Driver.antt =====
-- simulate.py: the driver, which runs each pipeline on each recording and compares its words with a
-- transcript. Folders are left out: the files have the paths that the code gives them. The simulation of
-- a stream, the transcription, ffmpeg and the answers to requests are parameters.
use live_translation.Base.{
  ℕ, ◌+◌, Bool, true, false, Option, none, some, List, [], ◌∷◌, ◌++◌, ◌==◌, if◌then◌else◌,
}
use live_translation.Base.Dict.{get, put, pop}
use live_translation.Data.{
  Text, Bytes, Word, TextSegment, Result, ok, err, ◌>>=◌, Error, exception, key_error, name_error,
  codes,
}
use live_translation.Ogg.Bytes.{bytes_eq}
use live_translation.ConfirmWords.{TextLib}
use live_translation.LiveStats.{StatsLib}
use live_translation.LiveStats.Timing.{LivePackage, stats}
use live_translation.Simulate.{PrometheusUrl, SimulationPipeline}
use live_translation.Simulate.Files.{
  replace, simulation_file, stats_file, graph_file, url_stats_file, transcript_file,
}

-- What the driver writes: a stats file has its JSON part or not.
pub data File : Type 0 where
  audio : Bytes → File
  simulation : List LivePackage → File
  transcript : List Word → File
  image : Bytes → File
  response : Text → File
  report : (complete : Bool) → File

-- The costly calls.
pub data Call : Type 0 where
  simulates : Text → Text → Call
  requests : PrometheusUrl → Call
  transcribes : Text → Call

-- `json_bound` says whether `main` has come to its `import json`, which makes `json` a variable of `main`.
pub record Driver : Type 0 where
  pub disk : List (Text × File)
  pub json_bound : Bool
  pub calls : List Call

-- What a step leaves.
pub record Step : Type 0 where
  pub driver : Driver
  pub raised : Option Error

abbrev pub going : Driver → Step
going self = record { driver = self; raised = none }

abbrev pub failing : Driver → Error → Step
failing self e = record { driver = self; raised = some e }

abbrev pub then_step : Step → (Driver → Step) → Step
then_step s next = elim s.raised as (λ _. Step) [ none ↦ next s.driver | some e ↦ s ]

-- `json` is none where the answer is no JSON.
pub record Response : Type 0 where
  pub status_code : ℕ
  pub content : Bytes
  pub json : Option Text

-- `simulate` gives the packages that the callback gets, in their order.
pub record DriverLib : Type 0 where
  pub simulate_live_audio_stream : Text → SimulationPipeline → Result (List LivePackage)
  pub get_id : SimulationPipeline → Text
  pub times : Text → SimulationPipeline → Text × Text
  pub requests_get : PrometheusUrl → Response
  pub transcribe_audio : Text → List Word
  pub tenth : ℕ
  pub text : TextLib
  pub words : StatsLib

abbrev pub exists : Driver → Text → Bool
exists self path = elim (get bytes_eq self.disk path) as (λ _. Bool) [
  | none ↦ false
  | some f ↦ true
]

abbrev pub write : Driver → Text → File → Driver
write self path f = record self { disk = put bytes_eq self.disk path f }

abbrev pub log_call : Driver → Call → Driver
log_call self c = record self { calls = self.calls ++ c ∷ [] }

abbrev pub has_segments : Option (List TextSegment) → Bool
has_segments none = false
has_segments (some []) = false
has_segments (some (s ∷ ss)) = true

abbrev pub is_result : LivePackage → Bool
is_result dp = elim dp.audio as (λ _. Bool) [
  | none ↦ false
  | some d ↦ has_segments d.transcribed_segments
]

-- `callback`, on each package.
abbrev pub collect_results : List LivePackage → List LivePackage → List LivePackage
collect_results result [] = result
collect_results result (dp ∷ dps) =
    let appended = collect_results (result ++ dp ∷ []) dps in
    let skipped = collect_results result dps in if is_result dp then appended else skipped

-- `url_copy`, with its query filled in.
abbrev pub fill_query : Text → Text × Text → PrometheusUrl → Result PrometheusUrl
fill_query id times url = elim (get bytes_eq url.query (codes "query")) [
  | none ↦ err key_error
  | some q ↦
      let named = put bytes_eq url.query (codes "query") (replace q (codes "PIPELINEID") id) in
      let started = put bytes_eq named (codes "start") times.0 in
      ok (record url { query = put bytes_eq started (codes "end") times.1 })
]

abbrev pub save_graph : Driver → Text → SimulationPipeline → ℕ → Response → Driver
save_graph self beginning p i r =
    if r.status_code == 200 then write self (graph_file beginning p i) (image r.content) else self

abbrev pub save_json : Driver → Text → Option Text → Driver
save_json self path none = self
save_json self path (some j) = record (write self path (response j)) { json_bound = true }

abbrev pub save_url_stats : Driver → Text → SimulationPipeline → ℕ → Response → Driver
save_url_stats self beginning p i r =
    if r.status_code == 200 then save_json self (url_stats_file beginning p i) r.json else self

module _ (lib : DriverLib) where
  -- A request, and what is done with its answer.
  abbrev pub ask : Driver → Result PrometheusUrl → (Driver → Response → Driver) → Step
  ask self (err e) save = failing self e
  ask self (ok url) save = going (save (log_call self (requests url)) (lib.requests_get url))

  -- The body of the loop over the URLs.
  abbrev pub fetch_url : Driver → Text → SimulationPipeline → Text × Text → ℕ → PrometheusUrl → Step
  fetch_url self beginning p times i url =
      if exists self (graph_file beginning p i)
      then going self
      else if bytes_eq url.path (codes "/graph")
      then ask self (fill_query (lib.get_id p) times url) (λ s r. save_graph s beginning p i r)
      else if bytes_eq url.path (codes "/stats")
      then ask self (fill_query (lib.get_id p) times url) (λ s r. save_url_stats s beginning p i r)
      else going self

  abbrev fetch_urls :
      Driver → Text → SimulationPipeline → Text × Text → ℕ → List PrometheusUrl → Step
  fetch_urls self beginning p times i [] = going self
  fetch_urls self beginning p times i (u ∷ us) =
      then_step (fetch_url self beginning p times i u)
        (λ s. fetch_urls s beginning p times (i + 1) us)

  abbrev pub keep_simulation :
      Driver → Text → Text → SimulationPipeline → Result (List LivePackage) → Step
  keep_simulation self file_path beginning p (err e) = failing self e
  keep_simulation self file_path beginning p (ok dps) =
      fetch_urls (write self (simulation_file beginning p) (simulation (collect_results [] dps)))
        beginning p (lib.times file_path p) 0 p.prometheus_url

  -- The block under `if not os.path.exists(..._simulation.pkl)`.
  unfoldable pub simulate_once : Driver → Text → Text → SimulationPipeline → Step
  simulate_once self file_path beginning p =
      if exists self (simulation_file beginning p)
      then going self
      else keep_simulation (log_call self (simulates file_path p.name)) file_path beginning p
          (lib.simulate_live_audio_stream file_path p)

  unfoldable pub transcribe_once : Driver → Text → Text → Driver
  transcribe_once self file_path beginning =
      if exists self (transcript_file beginning)
      then self
      else write (log_call self (transcribes file_path)) (transcript_file beginning)
          (transcript (lib.transcribe_audio file_path))

  -- `pickle.load` of what the driver has written there.
  abbrev pub load_live : Option File → Result (List LivePackage)
  load_live (some (simulation dps)) = ok dps
  load_live _ = err (exception "not a simulation")

  abbrev pub load_transcript : Option File → Result (List Word)
  load_transcript (some (transcript ws)) = ok ws
  load_transcript _ = err (exception "not a transcript")

  -- `save_stats`: the text is written first; then the JSON part, where `stats_to_json` needs `json`.
  unfoldable pub save_stats : Driver → Text → SimulationPipeline → Step
  save_stats self beginning p =
      let path = stats_file beginning p in
      let removed = record self { disk = pop bytes_eq self.disk path } in
      if self.json_bound
      then going (write removed path (report true))
      else failing (write removed path (report false)) name_error

  abbrev pub measure :
      Driver → Text → SimulationPipeline → Result (List LivePackage) → Result (List Word) → Step
  measure self beginning p live_data transcript_words =
      elim (live_data >>= λ live.
      transcript_words >>= λ ws. stats lib.tenth lib.text lib.words live ws) [
        | err e ↦ failing self e
        | ok result ↦ save_stats self beginning p
      ]

  abbrev pub compare_once : Driver → Text → SimulationPipeline → Step
  compare_once self beginning p =
      measure self beginning p (load_live (get bytes_eq self.disk (simulation_file beginning p)))
        (load_transcript (get bytes_eq self.disk (transcript_file beginning)))

  -- The body of the loop over the pipelines.
  unfoldable pub run_pipeline : Driver → Text → Text → SimulationPipeline → Step
  unfolding simulate_once transcribe_once save_stats
  run_pipeline self file_path beginning p =
      then_step (simulate_once self file_path beginning p)
        (λ s. compare_once (transcribe_once s file_path beginning) beginning p)

  unfoldable pub run_pipelines : Driver → Text → Text → List SimulationPipeline → Step
  unfolding run_pipeline
  run_pipelines self file_path beginning [] = going self
  run_pipelines self file_path beginning (p ∷ ps) =
      then_step (run_pipeline self file_path beginning p)
        (λ s. run_pipelines s file_path beginning ps)
