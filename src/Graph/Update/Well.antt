-- ===== src/Graph/Update/Well.antt =====
-- When the state of internal/engine/graph/graph.go is well formed.
use code_watch.Prelude.{String, Bool, true, false, ◌≡◌, Option, none, some, contains}
use code_watch.Prelude.Map
use code_watch.Prelude.Map.{Map}
use code_watch.Model.{File}
use code_watch.Cache.Invariant.{view, IsValid}
use code_watch.Graph.{Graph}
use code_watch.Graph.Links.Mirror.{Mirror}

abbrev pub cached : Graph → String → Option File
cached g p = Map.get (view g.file_cache) p

-- The path is on the file list of the module.
abbrev pub listed : Graph → String → String → Bool
listed g p m = elim (Map.get g.modules m) [ none ↦ false | some info ↦ contains p info.files ]

pub record IsWell (g : Graph) : Type 0 where
  pub cache : IsValid g.file_cache
  -- A cached file is on the list of its module.
  pub lists : (p : String) (f : File) → cached g p ≡ some f → listed g p f.module_name ≡ true
  -- Every module has a row of imports.
  pub rows : (m : String) → Map.has g.modules m ≡ true → Map.has g.links.imports m ≡ true
  -- `importedBy` is the transpose of `imports`.
  pub mirror : Mirror g.links
