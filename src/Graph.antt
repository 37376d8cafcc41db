-- ===== src/Graph.antt =====
-- internal/engine/graph/graph.go: the module graph. The mutex makes each method one step. A copy
-- made by `cloneFile` or `cloneDefinition` is the value itself here; `cloneModule` is in Graph/Files.
-- The gauges that a change reports are not part of the state.
pub mod Symbols
pub mod Links
pub mod Update
pub mod Neighbors
pub mod Cycles
pub mod Impact
pub mod Chain
pub mod Hotspots
pub mod Files
pub mod Examples
use code_watch.Prelude.{ℕ, String, List, Bool, []}
use code_watch.Prelude.Map.{Map}
use code_watch.Model.{File, Definition}
use code_watch.Cache.{Lru, new_lru}

-- `Module`
pub record ModuleInfo : Type 0 where
  pub name : String
  pub files : List String
  pub exports : Map Definition
  pub max_complexity : ℕ
  pub root_path : String

pub record Graph : Type 0 where
  pub file_cache : Lru File
  pub file_to_module : Map String
  pub file_to_language : Map String
  pub modules : Map ModuleInfo
  -- `imports` and `importedBy`
  pub links : Links.Links
  pub definitions : Map (Map Definition)
  pub dirty : Map Bool

-- `NewGraphWithCapacity`
unfoldable pub new_graph : ℕ → Graph
unfolding new_lru
new_graph capacity = record {
  file_cache = new_lru capacity;
  file_to_module = [];
  file_to_language = [];
  modules = [];
  links = record { imports = []; imported_by = [] };
  definitions = [];
  dirty = [];
}
