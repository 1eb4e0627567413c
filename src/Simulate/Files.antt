-- ===== src/Simulate/Files.antt =====
-- simulate.py: the names of the files that the driver keeps for a recording and a pipeline.
use live_translation.Base.{
  ℕ, zero, suc, ◌+◌, ◌/◌, ◌%◌, ◌-◌, [], ◌∷◌, ◌++◌, if◌then◌else◌, ltb, length,
}
use live_translation.Data.{Text, codes}
use live_translation.Ogg.Bytes.{starts_with}
use live_translation.Simulate.{SimulationPipeline}

-- `str(n)`; a number has at most as many digits as it counts, and one more.
abbrev digits : ℕ → ℕ → Text → Text
digits zero n acc = acc
digits (suc fuel) n acc =
    let d = 48 + n % 10 in
    let rest = digits fuel (n / 10) (d ∷ acc) in if ltb n 10 then d ∷ acc else rest

abbrev pub show : ℕ → Text
show n = digits (suc n) n []

-- `text.replace(old, new)`: what is found is skipped, all but its first character.
abbrev replace_from : ℕ → Text → Text → Text → Text
replace_from skip old new [] = []
replace_from (suc skip) old new (c ∷ cs) = replace_from skip old new cs
replace_from zero old new (c ∷ cs) =
    let found = replace_from (length old - 1) old new cs in
    let rest = replace_from zero old new cs in
    if starts_with (c ∷ cs) old then new ++ found else c ∷ rest

abbrev pub replace : Text → Text → Text → Text
replace text old new = replace_from zero old new text

-- `new_file_beginning_sumulation`
abbrev pub simulation_beginning : Text → SimulationPipeline → Text
simulation_beginning beginning p = beginning ++ (codes "_" ++ p.name)

unfoldable pub simulation_file : Text → SimulationPipeline → Text
simulation_file beginning p = simulation_beginning beginning p ++ codes "_simulation.pkl"

unfoldable pub stats_file : Text → SimulationPipeline → Text
stats_file beginning p = simulation_beginning beginning p ++ codes "_stats.txt"

unfoldable pub graph_file : Text → SimulationPipeline → ℕ → Text
graph_file beginning p i =
    simulation_beginning beginning p ++ (codes "_" ++ (show i ++ codes "_graph.png"))

unfoldable pub url_stats_file : Text → SimulationPipeline → ℕ → Text
url_stats_file beginning p i =
    simulation_beginning beginning p ++ (codes "_" ++ (show i ++ codes "_stats.json"))

unfoldable pub transcript_file : Text → Text
transcript_file beginning = beginning ++ codes "_transcript.pkl"
