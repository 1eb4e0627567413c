-- ===== src/Simulate.antt =====
-- simulate.py: the pipelines that it compares, and the driver that runs and measures them.
pub mod Table
pub mod Files
pub mod Names
pub mod Driver
pub mod Resume
pub mod Recordings
use live_translation.Base.{
  ℕ, Bool, true, false, Option, none, some, List, [], ◌∷◌, ◌++◌, if◌then◌else◌, map, String,
}
use live_translation.Data.{Text, codes}

-- Those of the library's modes that are used.
pub data ControllerMode : Type 0 where
  not_parallel first_wins : ControllerMode

-- The modules, with the arguments that are given. Offsets and ages are tenths of a second, other times
-- are seconds.
pub data Module : Type 0 where
  create_audio_buffer : (last_n_seconds : ℕ) → Module
  rate_limiter : (flowrate_per_second : ℕ) → Module
  convert_audio : Module
  vad : (max_chunk_size : ℕ) (last_time_spoken_offset : ℕ) → Module
  faster_whisper_transcribe :
      (model_size : Text) (task : Text) (compute_type : Text) (batching : Bool) (batch_size : ℕ)
      → Module
  confirm_words : (max_confirmed_words : ℕ) (confirm_if_older_then : ℕ) → Module

pub record Phase : Type 0 where
  pub name : Text
  pub modules : List Module

-- `queue_size` is none where it is not given.
pub record Controller : Type 0 where
  pub mode : ControllerMode
  pub max_workers : ℕ
  pub queue_size : Option ℕ
  pub name : Text
  pub phases : List Phase

pub record Pipeline : Type 0 where
  pub name : Text
  pub controllers : List Controller

-- `Prometheus_URL`; `params` and `fragment` stay empty.
pub record PrometheusUrl : Type 0 where
  pub scheme : Text
  pub netloc : Text
  pub path : Text
  pub query : List (Text × Text)

-- `Simulation_Pipeline`
pub record SimulationPipeline : Type 0 where
  pub name : Text
  pub prometheus_url : List PrometheusUrl
  pub pipeline : Pipeline

abbrev pub scheme : Text
scheme = codes "http"

abbrev pub netloc : Text
netloc = codes "prometheus-to-graph:5000"

abbrev pub graph_server : Text
graph_server = codes "http://prometheus:9090"
