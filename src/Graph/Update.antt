-- ===== src/Graph/Update.antt =====
-- internal/engine/graph/graph.go: `AddFile` and `RemoveFile`. `none` is the panic of a write to a
-- nil map.
pub mod Lookups
pub mod Reload
pub mod Well
pub mod Remove
pub mod Add
use code_watch.Prelude.{
  ℕ, String, Bool, true, false, Option, none, some, List, [], ◌∷◌, ◌++◌, ltb, if◌then◌else◌, ◌>>=◌,
  str_eq, contains,
}
use code_watch.Prelude.Map
use code_watch.Prelude.Map.{Map}
use code_watch.Model.{File}
use code_watch.Cache
use code_watch.Cache.{Lru}
use code_watch.Graph.Symbols.{Symbols, add_definitions, max_complexity}
use code_watch.Graph.Links.{Links, link_all, drop_importers, drop_stale, ensure_row}
use code_watch.Graph.{Graph, ModuleInfo}

-- `append(mod.Files[:i], mod.Files[i+1:]...)` at the first `i` that holds the path
unfoldable pub remove_path : String → List String → List String
remove_path p [] = []
remove_path p (q ∷ qs) = if str_eq q p then qs else q ∷ remove_path p qs

-- What the loop over the remaining files of a module changes.
pub record Rebuild : Type 0 where
  pub cache : Lru File
  pub symbols : Symbols
  pub links : Links

-- Its body: a file that the cache has lost is skipped.
unfoldable pub rebuild_file : Rebuild → String → Option Rebuild
rebuild_file r p =
    let (hit, cache) = Cache.get p r.cache in
    elim hit [
      | none ↦ some (record r { cache = cache })
      | some f ↦ link_all f r.links f.imports >>= λ links. some (record {
        cache = cache;
        symbols = add_definitions r.symbols f.definitions;
        links = links;
      })
    ]

unfoldable pub rebuild_files : Rebuild → List String → Option Rebuild
unfolding rebuild_file
rebuild_files r [] = some r
rebuild_files r (p ∷ ps) = rebuild_file r p >>= λ r'. rebuild_files r' ps

-- The state at the start of the loop, and the graph after it.
unfoldable pub emptied : String → Graph → Rebuild
emptied m g = record {
  cache = g.file_cache;
  symbols = record { defs = []; exports = [] };
  links = record (g.links) { imports = Map.put g.links.imports m [] };
}

unfoldable pub rebuilt : String → ModuleInfo → Graph → Rebuild → Graph
rebuilt m info g r = record g {
  file_cache = r.cache;
  modules = Map.put g.modules m (record info { exports = r.symbols.exports });
  definitions = Map.put g.definitions m r.symbols.defs;
  links = drop_stale m r.links (Map.keys (Map.inner g.links.imports m));
}

-- The branch of `removeFileLocked` for a module that keeps files.
unfoldable pub rebuild_module : String → ModuleInfo → Graph → Option Graph
unfolding rebuild_files emptied rebuilt
rebuild_module m info g = rebuild_files (emptied m g) info.files >>= λ r. some (rebuilt m info g r)

-- The branch for a module that loses its last file.
unfoldable pub drop_module : String → Graph → Graph
drop_module m g =
    let links = drop_importers m g.links (Map.keys (Map.inner g.links.imports m)) in
    record g {
      modules = Map.delete g.modules m;
      definitions = Map.delete g.definitions m;
      links = record links { imports = Map.delete links.imports m };
    }

unfoldable pub detach : String → String → ModuleInfo → Graph → Option Graph
unfolding remove_path rebuild_module drop_module
detach p m info g =
    let files = remove_path p info.files in
    elim files [
      | [] ↦ some (drop_module m g)
      | q ∷ qs ↦ rebuild_module m (record info { files = q ∷ qs }) g
    ]

-- The last lines of `removeFileLocked`.
unfoldable pub forget : String → Graph → Graph
forget p g = record g {
  file_cache = Cache.evict p g.file_cache;
  file_to_module = Map.delete g.file_to_module p;
  file_to_language = Map.delete g.file_to_language p;
}

-- `removeFileLocked`, which is `RemoveFile` under the lock
unfoldable pub remove_file : String → Graph → Option Graph
unfolding detach forget
remove_file p g = elim (Map.get g.file_to_module p) [
  | none ↦ some g
  | some m ↦ elim (Map.get g.modules m) [ none ↦ some g | some info ↦ detach p m info g ] >>= λ g'.
      some (forget p g')
]

-- The module of a file, made if it is new.
unfoldable pub module_of : String → Graph → ModuleInfo
module_of m g = elim (Map.get g.modules m) [
  | none ↦ record { name = m; files = []; exports = []; max_complexity = 0; root_path = "" }
  | some info ↦ info
]

unfoldable pub list_path : String → List String → List String
list_path p files = if contains p files then files else files ++ p ∷ []

-- The module with the file's path, exports and complexity.
unfoldable pub joined : File → Symbols → ModuleInfo → ModuleInfo
joined f symbols info =
    let complexity = max_complexity 0 f.definitions in
    record info {
      files = list_path f.path info.files;
      exports = symbols.exports;
      max_complexity =
          if ltb info.max_complexity complexity then complexity else info.max_complexity;
    }

unfoldable pub symbols_with : File → Graph → Symbols
symbols_with f g =
    let before : Symbols = record {
      defs = Map.inner g.definitions f.module_name;
      exports = (module_of f.module_name g).exports;
    } in
    add_definitions before f.definitions

-- The graph after `AddFile`, given its edges.
unfoldable pub registered : File → Graph → Links → Graph
unfolding module_of list_path joined symbols_with
registered f g links =
    let m = f.module_name in
    record g {
      file_cache = Cache.put f.path f g.file_cache;
      file_to_module = Map.put g.file_to_module f.path m;
      file_to_language = Map.put g.file_to_language f.path f.language;
      modules = Map.put g.modules m (joined f (symbols_with f g) (module_of m g));
      definitions = Map.put g.definitions m (symbols_with f g).defs;
      links = links;
    }

-- `AddFile` from the write to the cache on
unfoldable pub insert_file : File → Graph → Option Graph
unfolding registered ensure_row link_all
insert_file f g =
    link_all f (ensure_row f.module_name g.links) f.imports >>= λ links. some (registered f g links)

-- `AddFile`: prior contributions of the path go first, if the cache still has the file.
unfoldable pub add_file : File → Graph → Option Graph
unfolding remove_file insert_file
add_file f g =
    let (hit, cache) = Cache.get f.path g.file_cache in
    let g' = record g { file_cache = cache } in
    elim hit [ none ↦ some g' | some old ↦ remove_file f.path g' ] >>= insert_file f
