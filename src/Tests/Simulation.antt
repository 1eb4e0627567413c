-- ===== src/Tests/Simulation.antt =====
-- The list of pipelines of simulate.py.
use live_translation.Base.{
  ◌-ℤ◌, ◌+ℤ◌, scale, ◌≡◌, ◌≢◌, refl, some, none, arith, false, pos, List, [], ◌∷◌, drop,
}
use live_translation.Base.Dict.{get}
use live_translation.Data.{ok, name_error, codes}
use live_translation.Ogg.Bytes.{bytes_eq}
use live_translation.LiveStats.{compute_statistics, tally_loop}
use live_translation.LiveStats.Timing.{
  LivePackage, time_difference, spread, live_loop, live_step, remove_words, remove_word,
  is_similar_word, stats,
}
use live_translation.Simulate.Files.{simulation_file, transcript_file, stats_file}
use live_translation.Simulate.Driver.{
  DriverLib, Driver, simulation, transcript, report, run_pipelines,
}
use live_translation.Simulate.Recordings.{output_file, file_path}
use live_translation.Simulate.Resume.{IsResumed, run_pipelines-resumed}
use live_translation.Simulate.Table.{simulation_pipeline_list}
use live_translation.Tests.Samples.{raw_data}
use live_translation.Tests.Speech.{word}
use live_translation.Tests.Delays.{text}
use live_translation.Simulate.Names.{simulation_file-differs}
use live_translation.Simulate.Table.Batching.{run_10s_1}
use live_translation.Simulate.Table.Short.{run_10s_7}

file_name :
    simulation_file (codes "talk/talk") run_10s_1
    ≡ codes "talk/talk_1-10s-2flowrate-batching-2confirm_simulation.pkl"
unfolding simulation_file
file_name = refl

simulation_file-differs_example :
    simulation_file (codes "talk") run_10s_1 ≢ simulation_file (codes "talk") run_10s_7
simulation_file-differs_example =
    simulation_file-differs (codes "talk") 0 6 run_10s_1 run_10s_7 refl refl (λ e. omega (arith, e))

-- A name with two dots is looked for in a folder that does not exist.
dotted :
    (output_file (codes "out") (codes "talk.v2.mp3") ≡ codes "out/talk.v2/talk.v2.ogg")
    × (file_path (codes "out") (codes "talk.v2") ≡ codes "out/talk/talk.v2.ogg")
unfolding output_file file_path
dotted = (refl, refl)

abbrev live : List LivePackage
live =
    record {
      audio = some (record (raw_data []) { confirmed_words = some (word ∷ []) });
      start_time = pos 0;
      end_time = pos 1;
    }
    ∷ []

abbrev library : DriverLib
library = record {
  simulate_live_audio_stream = λ path p. ok live;
  get_id = λ p. codes "id";
  times = λ path p. (codes "1", codes "2");
  requests_get = λ url. record { status_code = 404; content = []; json = none };
  transcribe_audio = λ path. word ∷ [];
  tenth = 1;
  text = text;
  words = record { strip = λ t. t; get_opcodes = λ a b. [] };
}

-- Both files of the first pipeline are there.
abbrev resumed : Driver
resumed = record {
  disk =
      (codes "t_1-10s-2flowrate-batching-2confirm_simulation.pkl", simulation live)
      ∷ (codes "t_transcript.pkl", transcript (word ∷ []))
      ∷ [];
  json_bound = false;
  calls = [];
}

resumed-IsResumed : IsResumed library resumed (codes "t") run_10s_1
unfolding get simulation_file transcript_file stats time_difference live_loop live_step remove_words
    remove_word is_similar_word spread compute_statistics tally_loop ◌-ℤ◌ ◌+ℤ◌ scale
resumed-IsResumed = record {
  live = live;
  words = word ∷ [];
  result = _;
  simulated = refl;
  transcribed = refl;
  compared = refl;
}

run_pipelines-resumed_example :
    ((run_pipelines library resumed (codes "t.ogg") (codes "t") simulation_pipeline_list).raised
      ≡ some name_error)
    × ((run_pipelines library resumed
          (codes "t.ogg")
          (codes "t")
          simulation_pipeline_list).driver.calls
        ≡ [])
    × (get bytes_eq
          (run_pipelines library resumed
            (codes "t.ogg")
            (codes "t")
            simulation_pipeline_list).driver.disk
          (stats_file (codes "t") run_10s_1)
        ≡ some (report false))
run_pipelines-resumed_example =
    run_pipelines-resumed library resumed (codes "t.ogg") (codes "t") run_10s_1
      (drop 1 simulation_pipeline_list) resumed-IsResumed refl
