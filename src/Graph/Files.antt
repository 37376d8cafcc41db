-- ===== src/Graph/Files.antt =====
-- internal/engine/graph/graph.go: the reads of files and modules, and the dirty files.
pub mod RoundTrip
use code_watch.Prelude.{ℕ, zero, suc, String, Bool, true, Option, none, some, List, [], ◌∷◌, length}
use code_watch.Prelude.Map
use code_watch.Prelude.Map.{Map}
use code_watch.Model.{File}
use code_watch.Cache
use code_watch.Graph.{Graph, ModuleInfo}

unfoldable pub file_count : Graph → ℕ
file_count g = length g.file_to_module

-- `GetFile` on a miss; the loader's file is `none` where it fails or has none.
unfoldable pub reload : Option File → String → Graph → (Option File) × Graph
reload none p g = (none, g)
reload (some f) p g = (some f, record g { file_cache = Cache.put p f g.file_cache })

abbrev pub loaded : Option (String → Option File) → String → Option File
loaded none p = none
loaded (some loader) p = loader p

-- `GetFile`; `none` is a graph without a loader.
unfoldable pub get_file : Option (String → Option File) → String → Graph → (Option File) × Graph
unfolding reload
get_file loader p g =
    let (hit, cache) = Cache.get p g.file_cache in
    let g' : Graph = record g { file_cache = cache } in
    elim hit [ none ↦ reload (loaded loader p) p g' | some f ↦ (some f, g') ]

-- `cloneModule`, which leaves the complexity of the copy at 0.
unfoldable pub clone_module : ModuleInfo → ModuleInfo
clone_module info = record info { max_complexity = 0 }

unfoldable pub get_module : String → Graph → Option ModuleInfo
unfolding clone_module
get_module m g = elim (Map.get g.modules m) [ none ↦ none | some info ↦ some (clone_module info) ]

abbrev mark_all : List String → Map Bool → Map Bool
mark_all [] dirty = dirty
mark_all (p ∷ ps) dirty = mark_all ps (Map.put dirty p true)

unfoldable pub mark_dirty : List String → Graph → Graph
unfolding Map.put
mark_dirty ps g = record g { dirty = mark_all ps g.dirty }

-- The paths in the map's order; the map is empty afterwards.
unfoldable pub get_dirty : Graph → (List String) × Graph
get_dirty g = (Map.keys g.dirty, record g { dirty = [] })
