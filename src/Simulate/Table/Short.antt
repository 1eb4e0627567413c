-- ===== src/Simulate/Table/Short.antt =====
-- simulate.py, simulation_pipeline_list: the pipelines on 10 seconds that differ in when they confirm.
use live_translation.Base.{true, none, some, [], ◌∷◌}
use live_translation.Data.{codes}
use live_translation.Simulate.{
  not_parallel, first_wins, create_audio_buffer, rate_limiter, convert_audio, vad,
  faster_whisper_transcribe, confirm_words, Pipeline, SimulationPipeline,
}

abbrev pub pipeline_10s_5 : Pipeline
pipeline_10s_5 = record {
  name = codes "Pipeline";
  controllers =
      record {
        mode = not_parallel;
        max_workers = 1;
        queue_size = some 10;
        name = codes "Create_Audio_Buffer";
        phases =
            record {
              name = codes "Create_Audio_Buffer";
              modules = create_audio_buffer 10 ∷ rate_limiter 2 ∷ [];
            }
            ∷ [];
      }
      ∷ record {
        mode = first_wins;
        max_workers = 10;
        queue_size = some 2;
        name = codes "AudioPreprocessingController";
        phases = record { name = codes "VADPhase"; modules = convert_audio ∷ vad 10 30 ∷ [] } ∷ [];
      }
      ∷ record {
        mode = first_wins;
        max_workers = 1;
        queue_size = some 0;
        name = codes "MainProcessingController";
        phases =
            record {
              name = codes "WhisperPhase";
              modules =
                  faster_whisper_transcribe (codes "large-v3") (codes "transcribe")
                    (codes "float16") true 32
                  ∷ [];
            }
            ∷ [];
      }
      ∷ record {
        mode = not_parallel;
        max_workers = 1;
        queue_size = none;
        name = codes "OutputController";
        phases = record { name = codes "OutputPhase"; modules = confirm_words 0 0 ∷ [] } ∷ [];
      }
      ∷ [];
}

abbrev pub run_10s_5 : SimulationPipeline
run_10s_5 = record {
  name = codes "5-10s-2flowrate-batching-0confirm";
  prometheus_url = [];
  pipeline = pipeline_10s_5;
}

abbrev pub pipeline_10s_6 : Pipeline
pipeline_10s_6 = record {
  name = codes "Pipeline";
  controllers =
      record {
        mode = not_parallel;
        max_workers = 1;
        queue_size = some 10;
        name = codes "Create_Audio_Buffer";
        phases =
            record {
              name = codes "Create_Audio_Buffer";
              modules = create_audio_buffer 10 ∷ rate_limiter 2 ∷ [];
            }
            ∷ [];
      }
      ∷ record {
        mode = first_wins;
        max_workers = 3;
        queue_size = some 2;
        name = codes "AudioPreprocessingController";
        phases = record { name = codes "VADPhase"; modules = convert_audio ∷ vad 10 30 ∷ [] } ∷ [];
      }
      ∷ record {
        mode = first_wins;
        max_workers = 1;
        queue_size = some 0;
        name = codes "MainProcessingController";
        phases =
            record {
              name = codes "WhisperPhase";
              modules =
                  faster_whisper_transcribe (codes "large-v3") (codes "transcribe")
                    (codes "float16") true 32
                  ∷ [];
            }
            ∷ [];
      }
      ∷ record {
        mode = not_parallel;
        max_workers = 1;
        queue_size = none;
        name = codes "OutputController";
        phases = record { name = codes "OutputPhase"; modules = confirm_words 0 10 ∷ [] } ∷ [];
      }
      ∷ [];
}

abbrev pub run_10s_6 : SimulationPipeline
run_10s_6 = record {
  name = codes "6-10s-2flowrate-batching-1confirm";
  prometheus_url = [];
  pipeline = pipeline_10s_6;
}

abbrev pub pipeline_10s_7 : Pipeline
pipeline_10s_7 = record {
  name = codes "Pipeline";
  controllers =
      record {
        mode = not_parallel;
        max_workers = 1;
        queue_size = some 10;
        name = codes "Create_Audio_Buffer";
        phases =
            record {
              name = codes "Create_Audio_Buffer";
              modules = create_audio_buffer 10 ∷ rate_limiter 2 ∷ [];
            }
            ∷ [];
      }
      ∷ record {
        mode = first_wins;
        max_workers = 3;
        queue_size = some 2;
        name = codes "AudioPreprocessingController";
        phases = record { name = codes "VADPhase"; modules = convert_audio ∷ vad 10 30 ∷ [] } ∷ [];
      }
      ∷ record {
        mode = first_wins;
        max_workers = 1;
        queue_size = some 0;
        name = codes "MainProcessingController";
        phases =
            record {
              name = codes "WhisperPhase";
              modules =
                  faster_whisper_transcribe (codes "large-v3") (codes "transcribe")
                    (codes "float16") true 32
                  ∷ [];
            }
            ∷ [];
      }
      ∷ record {
        mode = not_parallel;
        max_workers = 1;
        queue_size = none;
        name = codes "OutputController";
        phases = record { name = codes "OutputPhase"; modules = confirm_words 0 20 ∷ [] } ∷ [];
      }
      ∷ [];
}

abbrev pub run_10s_7 : SimulationPipeline
run_10s_7 = record {
  name = codes "7-10s-2flowrate-batching-2confirm";
  prometheus_url = [];
  pipeline = pipeline_10s_7;
}

abbrev pub pipeline_10s_8 : Pipeline
pipeline_10s_8 = record {
  name = codes "Pipeline";
  controllers =
      record {
        mode = not_parallel;
        max_workers = 1;
        queue_size = some 10;
        name = codes "Create_Audio_Buffer";
        phases =
            record {
              name = codes "Create_Audio_Buffer";
              modules = create_audio_buffer 10 ∷ rate_limiter 2 ∷ [];
            }
            ∷ [];
      }
      ∷ record {
        mode = first_wins;
        max_workers = 3;
        queue_size = some 2;
        name = codes "AudioPreprocessingController";
        phases = record { name = codes "VADPhase"; modules = convert_audio ∷ vad 10 30 ∷ [] } ∷ [];
      }
      ∷ record {
        mode = first_wins;
        max_workers = 1;
        queue_size = some 0;
        name = codes "MainProcessingController";
        phases =
            record {
              name = codes "WhisperPhase";
              modules =
                  faster_whisper_transcribe (codes "large-v3") (codes "transcribe")
                    (codes "float16") true 32
                  ∷ [];
            }
            ∷ [];
      }
      ∷ record {
        mode = not_parallel;
        max_workers = 1;
        queue_size = none;
        name = codes "OutputController";
        phases = record { name = codes "OutputPhase"; modules = confirm_words 0 30 ∷ [] } ∷ [];
      }
      ∷ [];
}

abbrev pub run_10s_8 : SimulationPipeline
run_10s_8 = record {
  name = codes "8-10s-2flowrate-batching-3confirm";
  prometheus_url = [];
  pipeline = pipeline_10s_8;
}
