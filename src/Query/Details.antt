-- ===== src/Query/Details.antt =====
-- internal/data/query/service.go: the details of a module (`ModuleDetails`).
use code_watch.Prelude.{
  ℕ, String, Bool, true, false, not, ◌&&◌, ◌≡◌, Option, none, some, List, [], ◌∷◌, ltb, ◌==◌, arith,
  if◌then◌else◌, str_eq, str_le, sort_strings, contains, contains-sort_strings, eq_iff,
  String-cases, Option-cases, inl, inr, refl, ap, ◌∙◌, is_some,
}
use code_watch.Prelude.Map
use code_watch.Prelude.Map.{Map}
use code_watch.Graph.{Graph, ModuleInfo}
use code_watch.Graph.Links.{ImportEdge, has_edge}
use code_watch.Graph.Files.{get_module, clone_module}

pub record DependencyEdge : Type 0 where
  pub from : String
  pub to : String
  pub file : String
  pub line : ℕ
  pub column : ℕ

pub record ModuleDetails : Type 0 where
  pub name : String
  pub files : List String
  pub exported_symbols : List String
  pub dependencies : List DependencyEdge
  pub reverse_dependencies : List String

-- The loop over the edges of the module.
unfoldable pub dependency_edges : Map ImportEdge → List DependencyEdge
dependency_edges [] = []
dependency_edges ((to, edge) ∷ row) =
    record {
      from = edge.from;
      to = edge.to;
      file = edge.imported_by;
      line = edge.location.line;
      column = edge.location.column;
    }
    ∷ dependency_edges row

-- `s < t` on Go strings
abbrev before : String → String → Bool
before s t = not (str_le t s)

-- The test that `sort.Slice` is given.
unfoldable pub edge_before : DependencyEdge → DependencyEdge → Bool
edge_before a b =
    if str_eq a.to b.to
    then if str_eq a.file b.file
      then if a.line == b.line then ltb a.column b.column else ltb a.line b.line
      else before a.file b.file
    else before a.to b.to

unfoldable pub insert_edge : DependencyEdge → List DependencyEdge → List DependencyEdge
unfolding edge_before
insert_edge e [] = e ∷ []
insert_edge e (x ∷ xs) =
    let rest = insert_edge e xs in if edge_before x e then x ∷ rest else e ∷ x ∷ xs

-- `sort.Slice`
unfoldable pub sort_edges : List DependencyEdge → List DependencyEdge
unfolding insert_edge
sort_edges [] = []
sort_edges (e ∷ es) = insert_edge e (sort_edges es)

-- The loop over the rows of the imports, for the keys of `reverseSet`.
unfoldable pub reverse_set : String → Map (Map ImportEdge) → List String → List String
reverse_set m imports [] = []
reverse_set m imports (from ∷ froms) =
    let rest = reverse_set m imports froms in
    if str_eq from m then rest else if Map.cell imports from m then from ∷ rest else rest

-- The details of a module that the graph has.
unfoldable pub details : Graph → String → ModuleInfo → ModuleDetails
unfolding dependency_edges sort_edges reverse_set
details g m info = record {
  name = m;
  files = sort_strings info.files;
  exported_symbols = sort_strings (Map.keys info.exports);
  dependencies = sort_edges (dependency_edges (Map.inner g.links.imports m));
  reverse_dependencies = sort_strings (reverse_set m g.links.imports (Map.keys g.links.imports));
}

-- `ModuleDetails` with a context that is not cancelled; `none` is a module that the graph has not.
unfoldable pub module_details : Graph → String → Option ModuleDetails
unfolding details
module_details g m = elim (get_module m g) [ none ↦ none | some info ↦ some (details g m info) ]

contains-reverse_set :
    (m : String) (imports : Map (Map ImportEdge)) (froms : List String) (x : String)
    → contains x (reverse_set m imports froms)
      ≡ (contains x froms && (not (str_eq x m) && Map.cell imports x m))
unfolding reverse_set contains
contains-reverse_set m imports [] x = ground arith
contains-reverse_set m imports (from ∷ froms) x = elim (String-cases x from) [
  | inl same ↦ ground (
    arith,
    contains-reverse_set m imports froms x,
    eq_iff x from,
    ap (λ z. str_eq z m) same,
    ap (λ z. Map.cell imports z m) same,
  )
  | inr other ↦ ground (arith, contains-reverse_set m imports froms x, other)
]

-- A row that may be missing has `m`.
abbrev row_has : Option (Map ImportEdge) → String → Bool
row_has none m = false
row_has (some row) m = Map.has row m

has-row :
    (o : Option (Map ImportEdge)) (m : String)
    → Map.has (elim o [ none ↦ [] | some row ↦ row ]) m ≡ row_has o m
has-row none m = ap is_some (Map.get-empty m)
has-row (some row) m = refl

known_row :
    (imports : Map (Map ImportEdge)) (x m : String)
    → Map.cell imports x m ≡ true
    → Map.has imports x ≡ true
known_row imports x m h = elim (Option-cases (Map.get imports x)) [
  | inl missing ↦
      absurd (ground (arith, h, has-row (Map.get imports x) m ∙ ap (λ o. row_has o m) missing))
  | inr (row, found) ↦ ap is_some found
]

-- For a module of the graph, `ModuleDetails` lists its files, the names it exports, and as reverse
-- dependencies exactly the other modules that have an edge to it.
pub module_details-lists :
    (g : Graph) (m : String) (info : ModuleInfo)
    → Map.get g.modules m ≡ some info
    → (d : ModuleDetails) × (module_details g m ≡ some d)
      × ((x : String) → contains x d.files ≡ contains x info.files)
      × ((x : String) → contains x d.exported_symbols ≡ Map.has info.exports x)
      × ((x : String)
          → contains x d.reverse_dependencies ≡ (not (str_eq x m) && has_edge g.links x m))
unfolding module_details details code_watch.Graph.Files.get_module
    code_watch.Graph.Files.clone_module
module_details-lists g m info e = (
  details g m info,
  rw (e, module_details, get_module, clone_module) refl,
  λ x. contains-sort_strings x info.files,
  λ x. contains-sort_strings x (Map.keys info.exports) ∙ Map.contains-keys info.exports x,
  λ x.
      contains-sort_strings x (reverse_set m g.links.imports (Map.keys g.links.imports))
      ∙ ground (
        arith,
        contains-reverse_set m g.links.imports (Map.keys g.links.imports) x,
        Map.contains-keys g.links.imports x,
        known_row g.links.imports x m,
      ),
)
