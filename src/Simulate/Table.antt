-- ===== src/Simulate/Table.antt =====
-- simulate.py: the list of the pipelines.
pub mod Batching
pub mod Batching30s
pub mod Short
pub mod Long
use live_translation.Base.{List, [], ◌∷◌}
use live_translation.Simulate.{SimulationPipeline}
use live_translation.Simulate.Table.Batching.{run_10s_1, run_10s_2}
use live_translation.Simulate.Table.Batching30s.{run_30s_3, run_30s_4}
use live_translation.Simulate.Table.Short.{run_10s_5, run_10s_6, run_10s_7, run_10s_8}
use live_translation.Simulate.Table.Long.{run_30s_5, run_30s_6, run_30s_7, run_30s_8}

abbrev pub simulation_pipeline_list : List SimulationPipeline
simulation_pipeline_list =
    run_10s_1 ∷ run_10s_2 ∷ run_30s_3 ∷ run_30s_4 ∷ run_10s_5 ∷ run_10s_6 ∷ run_10s_7 ∷ run_10s_8
    ∷ run_30s_5 ∷ run_30s_6 ∷ run_30s_7 ∷ run_30s_8 ∷ []
