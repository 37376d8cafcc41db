-- ===== src/Graph/Examples.antt =====
-- Runs of the graph, and the theorems at them.
use code_watch.Prelude.{
  select, ℕ, true, ◌⊎◌, none, String, ◌≡◌, refl, some, List, [], ◌∷◌, All, map, sort_strings,
}
use code_watch.Prelude.Map
use code_watch.Model.{Definition, DefinitionKind, Location, Import, File}
use code_watch.Graph.{Graph, ModuleInfo, new_graph}
use code_watch.Graph.Links.{ImportEdge}
use code_watch.Graph.Update.{add_file, remove_file}
use code_watch.Graph.Update.Well.{IsWell}
use code_watch.Graph.Update.Remove.{remove_file_total}
use code_watch.Graph.Update.Add.{add_file_total, Change, add, run, run_total}
use code_watch.Graph.Impact.{
  ImpactReport, report, target_not_found, analyze_impact, invalidate_transitive,
}
use code_watch.Graph.Impact.Correct.{IsTarget, IsImpact, analyze_impact_correct}
use code_watch.Graph.Impact.Recheck.{IsRecheck, invalidate_transitive_correct}
use code_watch.Graph.Files.{get_file}
use code_watch.Graph.Files.RoundTrip.{get_file-add_file}
use code_watch.Graph.Hotspots.{top_complexity, hotspots, sort_hotspots, hotspot_score}
use code_watch.Graph.Hotspots.Listed.{all_definitions, counts, spot}
use code_watch.Graph.Hotspots.Correct.{IsTop, top_complexity-IsTop}
use code_watch.Prelude.Int.{pos}
use code_watch.Graph.Neighbors.{sorted_neighbors}
use code_watch.Graph.Chain.{find_import_chain, hunt, look, path_back, chain_of}
use code_watch.Graph.Chain.Correct.{IsAnswer, find_import_chain-IsAnswer}
use code_watch.Graph.Cycles.{detect_cycles, search, visit}
use code_watch.Graph.Cycles.Correct.{ImportCycle, detect_cycles_correct}

abbrev nowhere : Location
nowhere = record { file = ""; line = 1; column = 1 }

abbrev importing : String → Import
importing m = record { module_name = m; alias = ""; items = []; location = nowhere }

-- The file `path` of module `m`, which imports the modules `ms`.
abbrev file : String → String → List String → File
file path m ms = record {
  path = path;
  language = "go";
  module_name = m;
  imports = map importing ms;
  definitions = [];
  references = [];
  local_symbols = [];
}

abbrev changes : List Change
changes = add (file "a.go" "a" ("b" ∷ [])) ∷ add (file "b.go" "b" ("a" ∷ "c" ∷ [])) ∷ []

-- A cache of one file: the second `AddFile` evicts the first file.
run_total_example : (g : Graph) × (run changes (new_graph 1) ≡ some g) × IsWell g
run_total_example = run_total 1 changes

abbrev ring : Graph
ring = (run_total 10 changes).0

ring-IsWell : IsWell ring
ring-IsWell = (run_total 10 changes).2

add_file_total_example : (g : Graph) × (add_file (file "a.go" "c" []) ring ≡ some g) × IsWell g
add_file_total_example = add_file_total (file "a.go" "c" []) ring ring-IsWell

remove_file_total_example : (g : Graph) × (remove_file "a.go" ring ≡ some g) × IsWell g
remove_file_total_example = remove_file_total "a.go" ring ring-IsWell

abbrev edge : String → String → ImportEdge
edge a b = record { from = a; to = b; imported_by = ""; location = nowhere }

abbrev module_with : String → ModuleInfo
module_with m = record { name = m; files = []; exports = []; max_complexity = 0; root_path = "" }

-- a -> b -> c -> b
abbrev looped : Graph
looped = record {
  file_cache = record { capacity = 1; items = []; order = []; fresh = 0 };
  file_to_module = [];
  file_to_language = [];
  modules = ("c", module_with "c") ∷ ("a", module_with "a") ∷ ("b", module_with "b") ∷ [];
  links = record {
    imports =
        ("a", ("b", edge "a" "b") ∷ [])
        ∷ ("b", ("c", edge "b" "c") ∷ ("os", edge "b" "os") ∷ [])
        ∷ ("c", ("b", edge "c" "b") ∷ [])
        ∷ [];
    imported_by = [];
  };
  definitions = [];
  dirty = [];
}

detect_looped : detect_cycles looped ≡ some (("b" ∷ "c" ∷ []) ∷ [])
unfolding detect_cycles sorted_neighbors sort_strings Map.get Map.put Map.keys search visit
detect_looped = refl

detect_cycles_correct_example :
    (cs : List (List String)) × (detect_cycles looped ≡ some cs)
    × All (ImportCycle looped) cs
    × (cs ≡ [] → (c : List String) → ¬ ImportCycle looped c)
detect_cycles_correct_example = detect_cycles_correct looped

analyze_impact_correct_example :
    ((analyze_impact "b.go" ring ≡ target_not_found "b.go")
      × (Map.get ring.file_to_module "b.go" ≡ none)
      × (Map.get ring.modules "b.go" ≡ none))
    ⊎ ((m : String) × (r : ImpactReport) × IsTarget ring "b.go" m
        × (analyze_impact "b.go" ring ≡ report r)
        × IsImpact ring m r)
analyze_impact_correct_example = analyze_impact_correct "b.go" ring

invalidate_transitive_correct_example :
    (files : List String) × (invalidate_transitive "b.go" ring ≡ some files)
    × (((Map.get ring.file_to_module "b.go" ≡ none) × (files ≡ []))
        ⊎ ((m : String) × (Map.get ring.file_to_module "b.go" ≡ some m)
            × IsRecheck ring "b.go" m files))
invalidate_transitive_correct_example = invalidate_transitive_correct "b.go" ring

get_file-add_file_example :
    (g' : Graph) × (add_file (file "a.go" "c" []) ring ≡ some g')
    × ((get_file none "a.go" g').0 ≡ some (file "a.go" "c" []))
    × (Map.get g'.file_to_module "a.go" ≡ some "c")
    × (g'' : Graph) × (remove_file "a.go" g' ≡ some g'')
    × ((get_file none "a.go" g'').0 ≡ none)
    × (Map.get g''.file_to_module "a.go" ≡ none)
get_file-add_file_example = get_file-add_file none (file "a.go" "c" []) ring ring-IsWell

chain_looped : find_import_chain looped "a" "c" ≡ some (some ("a" ∷ "b" ∷ "c" ∷ []))
unfolding find_import_chain hunt look path_back chain_of sorted_neighbors code_watch.Prelude.Map.get
    code_watch.Prelude.Map.put sort_strings Map.keys
chain_looped = refl

no_chain_looped : find_import_chain looped "c" "a" ≡ some none
unfolding find_import_chain hunt look path_back chain_of sorted_neighbors code_watch.Prelude.Map.get
    code_watch.Prelude.Map.put sort_strings Map.keys
no_chain_looped = refl

find_import_chain-IsAnswer_example : IsAnswer looped "a" "c" (find_import_chain looped "a" "c")
find_import_chain-IsAnswer_example = find_import_chain-IsAnswer looped "a" "c"

abbrev callable : String → ℕ → Definition
callable name score = record {
  name = name;
  full_name = name;
  kind = DefinitionKind.function;
  location = nowhere;
  exported = true;
  visibility = "";
  branch_count = 0;
  parameter_count = 0;
  nesting_depth = 0;
  loc = 5;
  complexity_score = score;
}

-- `looped` with three functions, of which `h` has no score.
abbrev scored : Graph
scored = record looped {
  definitions =
      ("a", ("f", callable "f" 2) ∷ ("g", callable "g" 7) ∷ [])
      ∷ ("b", ("h", callable "h" 0) ∷ [])
      ∷ [];
}

top_scored : map (λ h. h.definition) (top_complexity (pos 2) scored) ≡ "g" ∷ "f" ∷ []
unfolding top_complexity hotspots sort_hotspots hotspot_score
top_scored = refl

top_complexity-IsTop_example :
    IsTop
      (pos 2)
      (map spot (select counts (all_definitions scored.definitions)))
      (top_complexity (pos 2) scored)
top_complexity-IsTop_example = top_complexity-IsTop (pos 2) scored
