-- ===== src/Graph/Neighbors.antt =====
-- internal/engine/graph/detect.go: the internal modules that a module imports.
use mathlib.Core.Bool.{◌&&◌}
use code_watch.Prelude.{
  String, ◌≡◌, ◌∙◌, List, [], ◌∷◌, if◌then◌else◌, arith, contains, eq_iff, sort_strings,
  contains-sort_strings,
}
use code_watch.Prelude.Map
use code_watch.Graph.{Graph}
use code_watch.Graph.Links.{has_edge}

-- The loop that keeps the targets which `g.modules` has.
unfoldable pub internal_only : Graph → List String → List String
internal_only g [] = []
internal_only g (m ∷ ms) =
    let rest = internal_only g ms in if Map.has g.modules m then m ∷ rest else rest

-- `getSortedNeighbors`
unfoldable pub sorted_neighbors : Graph → String → List String
unfolding internal_only
sorted_neighbors g m = sort_strings (internal_only g (Map.keys (Map.inner g.links.imports m)))

contains-internal_only :
    (g : Graph) (m : String) (ms : List String)
    → contains m (internal_only g ms) ≡ (Map.has g.modules m && contains m ms)
unfolding internal_only contains
contains-internal_only g m [] = ground arith
contains-internal_only g m (n ∷ ms) = ground (arith, contains-internal_only g m ms, eq_iff m n)

-- The neighbours are the targets of edges that are modules.
pub contains-sorted_neighbors :
    (g : Graph) (a b : String)
    → contains b (sorted_neighbors g a) ≡ (Map.has g.modules b && has_edge g.links a b)
unfolding sorted_neighbors
contains-sorted_neighbors g a b =
    contains-sort_strings b (internal_only g (Map.keys (Map.inner g.links.imports a)))
    ∙ ground (
      arith,
      contains-internal_only g b (Map.keys (Map.inner g.links.imports a)),
      Map.contains-keys (Map.inner g.links.imports a) b,
    )
