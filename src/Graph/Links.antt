-- ===== src/Graph/Links.antt =====
-- internal/engine/graph/graph.go: `imports` and `importedBy`, and the writes that they take.
pub mod Mirror
pub mod Stale
use code_watch.Prelude.{
  ℕ, String, Bool, true, false, not, Option, none, some, List, [], ◌∷◌, if◌then◌else◌, ◌>>=◌,
}
use code_watch.Prelude.Map
use code_watch.Prelude.Map.{Map}
use code_watch.Model.{Location, Import, File}

pub record ImportEdge : Type 0 where
  pub from : String
  pub to : String
  pub imported_by : String
  pub location : Location

pub record Links : Type 0 where
  -- from -> to -> edge
  pub imports : Map (Map ImportEdge)
  -- to -> from
  pub imported_by : Map (Map Bool)

abbrev pub edge_of : File → Import → ImportEdge
edge_of f imp = record {
  from = f.module_name;
  to = imp.module_name;
  imported_by = f.path;
  location = imp.location;
}

-- Both maps with one more edge; `row` is `imports[f.Module]`.
abbrev pub written : File → Links → Import → Map ImportEdge → Links
written f l imp row = record {
  imports = Map.put l.imports f.module_name (Map.put row imp.module_name (edge_of f imp));
  imported_by =
      Map.put l.imported_by imp.module_name
        (Map.put (Map.inner l.imported_by imp.module_name) f.module_name true);
}

-- The body of the loops over `Imports`. A write to `imports[f.Module]` panics where that map is
-- nil, which is `none`.
unfoldable pub link : File → Links → Import → Option Links
link f l imp = elim (Map.get l.imports f.module_name) [
  | none ↦ none
  | some row ↦ some (written f l imp row)
]

unfoldable pub link_all : File → Links → List Import → Option Links
unfolding link
link_all f l [] = some l
link_all f l (imp ∷ imps) = link f l imp >>= λ l'. link_all f l' imps

-- `if g.importedBy[to] != nil { delete(g.importedBy[to], from) }`
unfoldable pub drop_importer : String → Links → String → Links
drop_importer from l to = elim (Map.get l.imported_by to) [
  | none ↦ l
  | some row ↦ record l { imported_by = Map.put l.imported_by to (Map.delete row from) }
]

-- The loop over the targets of a module that goes away.
unfoldable pub drop_importers : String → Links → List String → Links
unfolding drop_importer
drop_importers from l [] = l
drop_importers from l (to ∷ tos) = drop_importers from (drop_importer from l to) tos

-- The loop over `oldImports`: targets that no remaining file imports.
unfoldable pub drop_stale : String → Links → List String → Links
unfolding drop_importer
drop_stale from l [] = l
drop_stale from l (to ∷ tos) =
    drop_stale from (if Map.has (Map.inner l.imports from) to then l else drop_importer from l to)
      tos

-- `if g.imports[m] == nil { g.imports[m] = make(...) }`
unfoldable pub ensure_row : String → Links → Links
ensure_row m l = elim (Map.get l.imports m) [
  | none ↦ record l { imports = Map.put l.imports m [] }
  | some row ↦ l
]

abbrev pub has_edge : Links → String → String → Bool
has_edge l from to = Map.cell l.imports from to

abbrev pub has_importer : Links → String → String → Bool
has_importer l to from = Map.cell l.imported_by to from
