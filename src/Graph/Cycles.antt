-- ===== src/Graph/Cycles.antt =====
-- internal/engine/graph/detect.go: `DetectCycles`, a depth-first search with its own stack. A
-- frame holds `neighbors[nextIdx:]`; `next` is `getSortedNeighbors` of the graph at hand. The outer
-- loop runs on fuel, and `none` means that it ran out.
pub mod Walks
pub mod Stack
pub mod Order
pub mod Ends
pub mod Steps
pub mod Runs
pub mod Correct
use code_watch.Prelude.{
  ℕ, zero, suc, ◌+◌, String, Bool, true, false, not, Option, none, some, List, [], ◌∷◌, ◌++◌,
  if◌then◌else◌, ◌>>=◌, str_eq, init, length, sort_strings,
}
use code_watch.Prelude.Map
use code_watch.Prelude.Map.{Map}
use code_watch.Graph.{Graph}
use code_watch.Graph.Neighbors.{sorted_neighbors}

pub record Frame : Type 0 where
  pub name : String
  pub pending : List String

pub record Search : Type 0 where
  -- the top frame first
  pub stack : List Frame
  -- the modules of the stack, the start first
  pub path : List String
  pub visited : Map Bool
  pub on_stack : Map Bool
  pub cycles : List (List String)

-- Reading a `map[string]bool`.
abbrev pub marked : Map Bool → String → Bool
marked m k = elim (Map.get m k) [ none ↦ false | some b ↦ b ]

-- `path[i:]` for the first `i` with `path[i] == next`; `[]` if there is none (`cycleStart == -1`)
unfoldable pub drop_until : String → List String → List String
drop_until m [] = []
drop_until m (x ∷ xs) = if str_eq x m then x ∷ xs else drop_until m xs

unfoldable pub report : List String → List (List String) → List (List String)
report [] cycles = cycles
report (x ∷ xs) cycles = cycles ++ (x ∷ xs) ∷ []

module _ (next : String → List String) where
  -- A module seen for the first time, in the loop body and at the start of a search.
  unfoldable pub enter : String → Search → Search
  enter m s = record {
    stack = record { name = m; pending = next m } ∷ s.stack;
    path = s.path ++ m ∷ [];
    visited = Map.put s.visited m true;
    on_stack = Map.put s.on_stack m true;
    cycles = s.cycles;
  }

  -- `s` has the neighbour `m` of its top frame taken.
  unfoldable pub follow : String → Search → Search
  unfolding drop_until report enter
  follow m s =
      if marked s.on_stack m
      then record s { cycles = report (drop_until m s.path) s.cycles }
      else if not (marked s.visited m)
      then enter m s
      else s

  -- The `else` branch: finished with the top frame.
  unfoldable pub leave : String → List Frame → Search → Search
  leave m rest s = record s {
    stack = rest;
    path = init s.path;
    on_stack = Map.put s.on_stack m false;
  }

  -- The body of the loop, for the top frame and the frames below it.
  unfoldable pub visit : String → List String → List Frame → Search → Search
  unfolding follow leave
  visit m [] rest s = leave m rest s
  visit m (n ∷ ns) rest s = follow n (record s { stack = record { name = m; pending = ns } ∷ rest })

  -- `for len(stack) > 0`
  unfoldable pub search : ℕ → Search → Option Search
  unfolding visit
  search zero s = elim s.stack [ [] ↦ some s | _ ∷ _ ↦ none ]
  search (suc fuel) s = elim s.stack [
    | [] ↦ some s
    | f ∷ rest ↦ search fuel (visit f.name f.pending rest s)
  ]

  -- The loop over the module names; each search starts with a new stack and path.
  unfoldable pub explore : ℕ → List String → Search → Option Search
  unfolding search enter
  explore fuel [] s = some s
  explore fuel (m ∷ ms) s =
      (if marked s.visited m
        then some s
        else search fuel (enter m (record s { stack = []; path = [] })))
      >>= λ s'. explore fuel ms s'

  -- Each module is entered at most once, and then left after its neighbours: this many rounds.
  unfoldable pub rounds : List String → ℕ
  rounds [] = 0
  rounds (m ∷ ms) = suc (length (next m)) + rounds ms

abbrev pub fresh_search : Search
fresh_search = record { stack = []; path = []; visited = []; on_stack = []; cycles = [] }

abbrev pub module_names : Graph → List String
module_names g = sort_strings (Map.keys g.modules)

-- `DetectCycles`
unfoldable pub detect_cycles : Graph → Option (List (List String))
unfolding explore rounds
detect_cycles g =
    let names = module_names g in
    explore (sorted_neighbors g) (rounds (sorted_neighbors g) names) names fresh_search >>= λ s.
    some s.cycles
