-- ===== src/Simulate/Table/Batching30s.antt =====
-- simulate.py, simulation_pipeline_list: the pipelines on 30 seconds with and without batching, with the graphs that are saved for them.
use live_translation.Base.{true, false, none, some, List, [], ◌∷◌}
use live_translation.Data.{codes}
use live_translation.Simulate.{
  not_parallel, first_wins, create_audio_buffer, rate_limiter, convert_audio, vad,
  faster_whisper_transcribe, confirm_words, Pipeline, scheme, netloc, graph_server, PrometheusUrl,
  SimulationPipeline,
}

abbrev pub urls_30s_3 : List PrometheusUrl
urls_30s_3 =
    record {
      scheme = scheme;
      netloc = netloc;
      path = codes "/stats";
      query =
          (codes "server", graph_server)
          ∷ (
            codes "query",
            codes
                "rate(module_success_time_sum{pipeline_id=\"PIPELINEID\"}[3s]) / rate(module_success_time_count{pipeline_id=\"PIPELINEID\"}[3s])|rate(pipeline_success_time_sum{pipeline_id=\"PIPELINEID\"}[3s]) / rate(pipeline_success_time_count{pipeline_id=\"PIPELINEID\"}[3s])",
          )
          ∷ (codes "start", codes "STARTTIME")
          ∷ (codes "end", codes "ENDTIME")
          ∷ (codes "label", codes "module_name|pipeline_name")
          ∷ [];
    }
    ∷ record {
      scheme = scheme;
      netloc = netloc;
      path = codes "/graph";
      query =
          (codes "server", graph_server)
          ∷ (
            codes "query",
            codes
                "rate(module_success_time_sum{pipeline_id=\"PIPELINEID\"}[3s]) / rate(module_success_time_count{pipeline_id=\"PIPELINEID\"}[3s])|rate(pipeline_success_time_sum{pipeline_id=\"PIPELINEID\"}[3s]) / rate(pipeline_success_time_count{pipeline_id=\"PIPELINEID\"}[3s])",
          )
          ∷ (codes "start", codes "STARTTIME")
          ∷ (codes "end", codes "ENDTIME")
          ∷ (codes "title", codes "Verarbeitungszeit 30s AudioBuffer")
          ∷ (codes "xlabel", codes "Zeit")
          ∷ (codes "ylabel", codes "Verarbeitungszeit in Sekunden")
          ∷ (codes "legend", codes "true")
          ∷ (codes "label", codes "module_name|pipeline_name")
          ∷ [];
    }
    ∷ []

abbrev pub pipeline_30s_3 : Pipeline
pipeline_30s_3 = record {
  name = codes "Pipeline";
  controllers =
      record {
        mode = not_parallel;
        max_workers = 1;
        queue_size = some 10;
        name = codes "Create_Audio_Buffer";
        phases =
            record {
              name = codes "Create_Audio_Buffer";
              modules = create_audio_buffer 30 ∷ rate_limiter 2 ∷ [];
            }
            ∷ [];
      }
      ∷ record {
        mode = first_wins;
        max_workers = 3;
        queue_size = some 2;
        name = codes "AudioPreprocessingController";
        phases = record { name = codes "VADPhase"; modules = convert_audio ∷ vad 30 30 ∷ [] } ∷ [];
      }
      ∷ record {
        mode = first_wins;
        max_workers = 1;
        queue_size = some 0;
        name = codes "MainProcessingController";
        phases =
            record {
              name = codes "WhisperPhase";
              modules =
                  faster_whisper_transcribe (codes "large-v3") (codes "transcribe")
                    (codes "float16") true 32
                  ∷ [];
            }
            ∷ [];
      }
      ∷ record {
        mode = not_parallel;
        max_workers = 1;
        queue_size = none;
        name = codes "OutputController";
        phases = record { name = codes "OutputPhase"; modules = confirm_words 0 20 ∷ [] } ∷ [];
      }
      ∷ [];
}

abbrev pub run_30s_3 : SimulationPipeline
run_30s_3 = record {
  name = codes "3-30s-2flowrate-batching-2confirm";
  prometheus_url = urls_30s_3;
  pipeline = pipeline_30s_3;
}

abbrev pub urls_30s_4 : List PrometheusUrl
urls_30s_4 =
    record {
      scheme = scheme;
      netloc = netloc;
      path = codes "/stats";
      query =
          (codes "server", graph_server)
          ∷ (
            codes "query",
            codes
                "rate(module_success_time_sum{pipeline_id=\"PIPELINEID\"}[3s]) / rate(module_success_time_count{pipeline_id=\"PIPELINEID\"}[3s])|rate(pipeline_success_time_sum{pipeline_id=\"PIPELINEID\"}[3s]) / rate(pipeline_success_time_count{pipeline_id=\"PIPELINEID\"}[3s])",
          )
          ∷ (codes "start", codes "STARTTIME")
          ∷ (codes "end", codes "ENDTIME")
          ∷ (codes "label", codes "module_name|pipeline_name")
          ∷ [];
    }
    ∷ record {
      scheme = scheme;
      netloc = netloc;
      path = codes "/graph";
      query =
          (codes "server", graph_server)
          ∷ (
            codes "query",
            codes
                "rate(module_success_time_sum{pipeline_id=\"PIPELINEID\"}[3s]) / rate(module_success_time_count{pipeline_id=\"PIPELINEID\"}[3s])|rate(pipeline_success_time_sum{pipeline_id=\"PIPELINEID\"}[3s]) / rate(pipeline_success_time_count{pipeline_id=\"PIPELINEID\"}[3s])",
          )
          ∷ (codes "start", codes "STARTTIME")
          ∷ (codes "end", codes "ENDTIME")
          ∷ (codes "title", codes "Verarbeitungszeit 30s AudioBuffer")
          ∷ (codes "xlabel", codes "Zeit")
          ∷ (codes "ylabel", codes "Verarbeitungszeit in Sekunden")
          ∷ (codes "legend", codes "true")
          ∷ (codes "label", codes "module_name|pipeline_name")
          ∷ [];
    }
    ∷ []

abbrev pub pipeline_30s_4 : Pipeline
pipeline_30s_4 = record {
  name = codes "Pipeline";
  controllers =
      record {
        mode = not_parallel;
        max_workers = 1;
        queue_size = some 10;
        name = codes "Create_Audio_Buffer";
        phases =
            record {
              name = codes "Create_Audio_Buffer";
              modules = create_audio_buffer 30 ∷ rate_limiter 2 ∷ [];
            }
            ∷ [];
      }
      ∷ record {
        mode = first_wins;
        max_workers = 3;
        queue_size = some 2;
        name = codes "AudioPreprocessingController";
        phases = record { name = codes "VADPhase"; modules = convert_audio ∷ vad 30 30 ∷ [] } ∷ [];
      }
      ∷ record {
        mode = first_wins;
        max_workers = 1;
        queue_size = some 0;
        name = codes "MainProcessingController";
        phases =
            record {
              name = codes "WhisperPhase";
              modules =
                  faster_whisper_transcribe (codes "large-v3") (codes "transcribe")
                    (codes "float16") false 32
                  ∷ [];
            }
            ∷ [];
      }
      ∷ record {
        mode = not_parallel;
        max_workers = 1;
        queue_size = none;
        name = codes "OutputController";
        phases = record { name = codes "OutputPhase"; modules = confirm_words 0 20 ∷ [] } ∷ [];
      }
      ∷ [];
}

abbrev pub run_30s_4 : SimulationPipeline
run_30s_4 = record {
  name = codes "4-30s-2flowrate-nobatching-2confirm";
  prometheus_url = urls_30s_4;
  pipeline = pipeline_30s_4;
}
