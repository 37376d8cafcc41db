-- ===== src/Graph/Cycles/Correct.antt =====
-- internal/engine/graph/detect.go: what `DetectCycles` reports, and the cycles of imports.
use code_watch.Prelude.{
  String, Bool, true, ◌&&◌, ◌≡◌, ◌↔◌, refl, sym, ◌∙◌, some, List, [], ◌∷◌, arith, contains, All,
}
use code_watch.Prelude.Map
use code_watch.Prelude.Map.{Map}
use code_watch.Graph.Cycles.{Search, marked}
use code_watch.Graph.Cycles.Walks.{end_of, IsWalk, IsCycle}
use code_watch.Prelude.{contains-sort_strings}
use code_watch.Graph.{Graph}
use code_watch.Graph.Neighbors.{sorted_neighbors, contains-sorted_neighbors}
use code_watch.Graph.Links.{has_edge}
use code_watch.Graph.Cycles.{fresh_search, module_names, detect_cycles}
use code_watch.Graph.Cycles.Walks.{Topo-acyclic}
use code_watch.Graph.Cycles.Order.{Ordered}
use code_watch.Graph.Cycles.Steps
use code_watch.Graph.Cycles.Runs.{explore_ends}

-- An import between two modules of the graph.
abbrev pub imports : Graph → String → String → Bool
imports g a b = Map.has g.modules b && has_edge g.links a b

abbrev pub ImportWalk : Graph → String → List String → Type 0
ImportWalk g x [] = Unit
ImportWalk g x (y ∷ ys) = (imports g x y ≡ true) × ImportWalk g y ys

-- Modules of which each imports the next one, and the last imports the first.
abbrev pub ImportCycle : Graph → List String → Type 0
ImportCycle g [] = ⊥
ImportCycle g (x ∷ xs) = ImportWalk g x xs × (imports g (end_of x xs) x ≡ true)

IsWalk-iff :
    (g : Graph) (x : String) (xs : List String)
    → IsWalk (sorted_neighbors g) x xs ↔ ImportWalk g x xs
IsWalk-iff g x [] = (λ w. w, λ w. w)
IsWalk-iff g x (y ∷ ys) = (
  λ w. (sym (contains-sorted_neighbors g x y) ∙ w.0, (IsWalk-iff g y ys).0 w.1),
  λ w. (contains-sorted_neighbors g x y ∙ w.0, (IsWalk-iff g y ys).1 w.1),
)

IsCycle-iff : (g : Graph) (c : List String) → IsCycle (sorted_neighbors g) c ↔ ImportCycle g c
IsCycle-iff g [] = (λ h. h, λ h. h)
IsCycle-iff g (x ∷ xs) = (
  λ h. ((IsWalk-iff g x xs).0 h.0, sym (contains-sorted_neighbors g (end_of x xs) x) ∙ h.1),
  λ h. ((IsWalk-iff g x xs).1 h.0, contains-sorted_neighbors g (end_of x xs) x ∙ h.1),
)

All-cycles :
    (g : Graph) (cs : List (List String))
    → All (IsCycle (sorted_neighbors g)) cs
    → All (ImportCycle g) cs
All-cycles g [] h = h
All-cycles g (c ∷ cs) h = ((IsCycle-iff g c).0 h.0, All-cycles g cs h.1)

contains-module_names : (g : Graph) (m : String) → contains m (module_names g) ≡ Map.has g.modules m
contains-module_names g m =
    contains-sort_strings m (Map.keys g.modules) ∙ Map.contains-keys g.modules m

-- Every vertex of a cycle is a module, since the one before imports it.
closed :
    (g : Graph) (a b : String)
    → contains b (sorted_neighbors g a) ≡ true
    → contains b (module_names g) ≡ true
closed g a b h = ground (arith, contains-sorted_neighbors g a b, contains-module_names g b, h)

fresh-Inv : (g : Graph) → Steps.Inv (sorted_neighbors g) (module_names g) (closed g) [] fresh_search
unfolding contains Map.get
fresh-Inv g = record {
  search = record {
    top = refl;
    stack = tt;
    path = refl;
    on = λ x. refl;
    seen = λ x h. cc;
    cycles = tt;
  };
  ordered = λ e. ([], tt, λ x. refl, tt);
}

-- `DetectCycles` returns; every list that it reports is a cycle of imports between modules, and
-- if it reports none then the modules have no cycle.
pub detect_cycles_correct :
    (g : Graph)
    → (cs : List (List String)) × (detect_cycles g ≡ some cs)
      × All (ImportCycle g) cs
      × (cs ≡ [] → (c : List String) → ¬ ImportCycle g c)
unfolding detect_cycles
detect_cycles_correct g =
    let (t, e, inv, grows, seen) =
      explore_ends (sorted_neighbors g) (module_names g) (closed g) (module_names g) fresh_search
        (λ m h. h) (fresh-Inv g) in
    (
      t.cycles,
      rw e,
      All-cycles g t.cycles inv.search.cycles,
      λ none_found. acyclic t (inv.ordered none_found) seen,
    )
  where
    acyclic :
        (t : Search)
        → Ordered (sorted_neighbors g) [] t
        → ((m : String) → contains m (module_names g) ≡ true → marked t.visited m ≡ true)
        → (c : List String) → ¬ ImportCycle g c
    acyclic t o seen [] h = h
    acyclic t (order, topo, finished, _) seen (x ∷ xs) h =
        let cycle = (IsCycle-iff g (x ∷ xs)).1 h in
        Topo-acyclic (sorted_neighbors g) x xs order topo
          (unfold contains in ground (arith, finished x, seen x (closed g (end_of x xs) x cycle.1)))
          cycle
