-- ===== src/Graph/Chain.antt =====
-- internal/engine/graph/detect.go: `FindImportChain`, a breadth-first search that notes for each
-- module from which one it was met. The search runs on fuel, and `none` means that it ran out.
pub mod Notes
pub mod Search
pub mod Ends
pub mod Correct
use code_watch.Prelude.{
  ℕ, zero, suc, String, Bool, true, false, not, ◌⊎◌, inl, inr, Option, none, some, List, [], ◌∷◌,
  ◌++◌, length, if◌then◌else◌, str_eq, contains,
}
use code_watch.Prelude.Map
use code_watch.Prelude.Map.{Map}
use code_watch.Graph.{Graph}
use code_watch.Graph.Neighbors.{sorted_neighbors}

pub record Hunt : Type 0 where
  pub queue : List String
  -- the keys of the map
  pub visited : List String
  pub prev : Map String

-- A new neighbour of `curr` is marked, noted and put in the queue.
abbrev pub marked : String → String → Hunt → Hunt
marked curr n h = record {
  queue = h.queue ++ n ∷ [];
  visited = n ∷ h.visited;
  prev = Map.put h.prev n curr;
}

-- The loop over the neighbours of `curr`: the map `prev` once `to` is met, else the search after.
unfoldable pub look : String → String → List String → Hunt → Map String ⊎ Hunt
unfolding contains
look to curr [] h = inr h
look to curr (n ∷ ns) h =
    let skipped = look to curr ns h in
    let onward = look to curr ns (marked curr n h) in
    if contains n h.visited
    then skipped
    else if str_eq n to
    then inl (Map.put h.prev n curr)
    else onward

-- The loop over the queue; `some none` is a search that does not meet `to`.
unfoldable pub hunt : (String → List String) → String → ℕ → Hunt → Option (Option (Map String))
unfolding look
hunt next to zero h = none
hunt next to (suc fuel) h = elim h.queue [
  | [] ↦ some none
  | curr ∷ queue ↦ elim (look to curr (next curr) (record h { queue = queue })) [
    | inl prev ↦ some (some prev)
    | inr h' ↦ hunt next to fuel h'
  ]
]

-- The loop from `to` back to `from`, with the path behind `node`.
unfoldable pub path_back : ℕ → String → Map String → String → List String → Option (List String)
path_back zero from prev node path = none
path_back (suc fuel) from prev node path =
    if str_eq node from then some (node ∷ path) else elim (Map.get prev node) [
      | none ↦ none
      | some p ↦ path_back fuel from prev p (node ∷ path)
    ]

-- The chain that a search has found.
unfoldable pub chain_of :
    String → String → Option (Option (Map String)) → Option (Option (List String))
unfolding path_back
chain_of from to none = none
chain_of from to (some none) = some none
chain_of from to (some (some prev)) = some (path_back (suc (length prev)) from prev to [])

-- `FindImportChain`
unfoldable pub find_import_chain : Graph → String → String → Option (Option (List String))
unfolding hunt chain_of sorted_neighbors
find_import_chain g from to =
    if not (Map.has g.modules from)
    then some none
    else if not (Map.has g.modules to)
    then some none
    else if str_eq from to
    then some (some (from ∷ []))
    else chain_of from to (
        hunt (sorted_neighbors g) to (suc (suc (length (Map.keys g.modules))))
          (record { queue = from ∷ []; visited = from ∷ []; prev = [] }))
