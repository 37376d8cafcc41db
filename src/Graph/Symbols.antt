-- ===== src/Graph/Symbols.antt =====
-- internal/engine/graph/graph.go: which definition of a name a module keeps.
use code_watch.Prelude.{
  ℕ, ◌+◌, ◌*◌, ◌/◌, Bool, false, not, none, some, List, [], ◌∷◌, ◌==◌, ltb, if◌then◌else◌,
}
use code_watch.Prelude.Map
use code_watch.Prelude.Map.{Map}
use code_watch.Model.{Definition}

-- `ComplexityScore`, or the weighted counts where it is 0
unfoldable pub complexity_score : Definition → ℕ
complexity_score d =
    if ltb 0 d.complexity_score
    then d.complexity_score
    else d.branch_count * 2 + d.nesting_depth * 2 + d.parameter_count + d.loc / 10

-- `preferDefinition`, both pointers not nil
unfoldable pub prefer_definition : Definition → Definition → Bool
unfolding complexity_score
prefer_definition candidate existing =
    if not (complexity_score candidate == complexity_score existing)
    then ltb (complexity_score existing) (complexity_score candidate)
    else if not (candidate.loc == existing.loc)
    then ltb existing.loc candidate.loc
    else if not (candidate.branch_count == existing.branch_count)
    then ltb existing.branch_count candidate.branch_count
    else if not (candidate.parameter_count == existing.parameter_count)
    then ltb existing.parameter_count candidate.parameter_count
    else if not (candidate.nesting_depth == existing.nesting_depth)
    then ltb existing.nesting_depth candidate.nesting_depth
    else false

-- `if !has || preferDefinition(def, existing) { m[def.Name] = def }`
unfoldable pub keep_preferred : Map Definition → Definition → Map Definition
keep_preferred m d = elim (Map.get m d.name) [
  | none ↦ Map.put m d.name d
  | some existing ↦ if prefer_definition d existing then Map.put m d.name d else m
]

-- `definitions[module]` and `Exports`
pub record Symbols : Type 0 where
  pub defs : Map Definition
  pub exports : Map Definition

-- The body of the loops over `file.Definitions`.
unfoldable pub add_definition : Symbols → Definition → Symbols
add_definition s d = record {
  defs = keep_preferred s.defs d;
  exports = if d.exported then keep_preferred s.exports d else s.exports;
}

unfoldable pub add_definitions : Symbols → List Definition → Symbols
unfolding add_definition
add_definitions s [] = s
add_definitions s (d ∷ ds) = add_definitions (add_definition s d) ds

-- `fileMaxComplexity`
unfoldable pub max_complexity : ℕ → List Definition → ℕ
max_complexity best [] = best
max_complexity best (d ∷ ds) =
    max_complexity (if ltb best (complexity_score d) then complexity_score d else best) ds
