-- ===== src/Graph/Impact.antt =====
-- internal/engine/graph/impact.go, and `InvalidateTransitive` of internal/engine/graph/detect.go: two
-- breadth-first searches along `importedBy`. They share their loop here: `admit` says which modules
-- join the queue, and `gain` what a module seen for the first time adds to the result.
pub mod Reach
pub mod Correct
pub mod Recheck
use code_watch.Prelude.{
  ℕ, zero, suc, ◌+◌, String, Bool, true, false, Option, none, some, List, [], ◌∷◌, ◌++◌,
  if◌then◌else◌, ◌>>=◌, contains, length, sort_strings, ltb, ◌||◌,
}
use code_watch.Prelude.Map
use code_watch.Prelude.Map.{Map}
use code_watch.Graph.{Graph, ModuleInfo}
use code_watch.Graph.Links.{Links}
use code_watch.Graph.Update.{list_path}

pub record Wave : Type 0 where
  pub queue : List String
  pub seen : List String
  pub found : List String

module _ (importers : String → List String) (admit : String → Bool)
    (gain : String → List String → List String) where
  -- The body of the inner loop.
  unfoldable pub meet : Wave → String → Wave
  meet w m = if contains m w.seen then w else record {
    queue = if admit m then w.queue ++ m ∷ [] else w.queue;
    seen = m ∷ w.seen;
    found = gain m w.found;
  }

  unfoldable pub meet_all : Wave → List String → Wave
  unfolding meet
  meet_all w [] = w
  meet_all w (m ∷ ms) = meet_all (meet w m) ms

  -- `for len(queue) > 0`; `none` means out of fuel.
  unfoldable pub spread : ℕ → Wave → Option Wave
  unfolding meet_all
  spread zero w = elim w.queue [ [] ↦ some w | _ ∷ _ ↦ none ]
  spread (suc fuel) w = elim w.queue [
    | [] ↦ some w
    | m ∷ rest ↦ spread fuel (meet_all (record w { queue = rest }) (importers m))
  ]

abbrev pub importers_of : Graph → String → List String
importers_of g m = Map.keys (Map.inner g.links.imported_by m)

-- The names in the rows of `importedBy`: no search sees more new names than these.
unfoldable pub row_names : Map (Map Bool) → List String
row_names [] = []
row_names ((m, row) ∷ rows) = Map.keys row ++ row_names rows

pub record ImpactReport : Type 0 where
  pub target_path : String
  pub target_module : String
  pub direct_importers : List String
  pub transitive_importers : List String
  pub externally_used_symbols : List String

-- The test of `directSet` in the inner loop.
unfoldable pub unless_direct : List String → String → List String → List String
unless_direct direct m found = if contains m direct then found else found ++ m ∷ []

abbrev pub anyone : String → Bool
anyone m = true

unfoldable pub transitive_search : List String → Graph → Option Wave
unfolding spread row_names unless_direct
transitive_search direct g =
    let w : Wave = record { queue = direct; seen = direct; found = [] } in
    spread (importers_of g) anyone (unless_direct direct)
      (length direct + length (row_names g.links.imported_by)) w

-- The exported names, where some module imports the target.
unfoldable pub used_symbols : String → Graph → List String → List String → List String
used_symbols m g direct transitive = elim (Map.get g.modules m) [
  | none ↦ []
  | some info ↦
      if ltb 0 (length direct) || ltb 0 (length transitive)
      then sort_strings (Map.keys info.exports)
      else []
]

abbrev pub report_of : String → String → Graph → List String → ImpactReport
report_of m path g found =
    let direct = sort_strings (importers_of g m) in
    record {
      target_path = path;
      target_module = m;
      direct_importers = direct;
      transitive_importers = sort_strings found;
      externally_used_symbols = used_symbols m g direct (sort_strings found);
    }

-- `analyzeImpactForModule`
unfoldable pub analyze_module : String → String → Graph → Option ImpactReport
unfolding transitive_search used_symbols
analyze_module m path g =
    transitive_search (sort_strings (importers_of g m)) g >>= λ w. some (report_of m path g w.found)

-- The first file of a module in the order of the paths.
unfoldable pub first_file : ModuleInfo → String
first_file info = elim (sort_strings info.files) [ [] ↦ "" | p ∷ ps ↦ p ]

pub data Impact : Type 0 where
  report : ImpactReport → Impact
  target_not_found : String → Impact
  out_of_fuel : Impact

abbrev pub reported : Option ImpactReport → Impact
reported none = out_of_fuel
reported (some r) = report r

-- `AnalyzeImpact`
unfoldable pub analyze_impact : String → Graph → Impact
unfolding analyze_module first_file
analyze_impact path g = elim (Map.get g.file_to_module path) [
  | some m ↦ reported (analyze_module m path g)
  | none ↦ elim (Map.get g.modules path) [
    | some info ↦ reported (analyze_module path (first_file info) g)
    | none ↦ target_not_found path
  ]
]

-- The files of an importer, each once.
unfoldable pub list_paths : List String → List String → List String
unfolding list_path
list_paths [] files = files
list_paths (p ∷ ps) files = list_paths ps (list_path p files)

unfoldable pub files_of : Graph → String → List String
files_of g m = elim (Map.get g.modules m) [ none ↦ [] | some info ↦ info.files ]

unfoldable pub recheck : Graph → String → List String → List String
unfolding list_paths files_of
recheck g m found = list_paths (files_of g m) found

-- `InvalidateTransitive`
unfoldable pub invalidate_transitive : String → Graph → Option (List String)
unfolding spread row_names recheck
invalidate_transitive path g = elim (Map.get g.file_to_module path) [
  | none ↦ some []
  | some m ↦
      let w : Wave = record { queue = m ∷ []; seen = m ∷ []; found = path ∷ [] } in
      spread (importers_of g) (Map.has g.modules) (recheck g)
        (suc (length (row_names g.links.imported_by))) w
      >>= λ w'. some w'.found
]
