-- ===== src/Graph/Hotspots.antt =====
-- internal/engine/graph/metrics.go: the definitions of highest complexity (`TopComplexity`).
pub mod Listed
pub mod Correct
use code_watch.Prelude.{
  ℕ, zero, ◌+◌, ◌*◌, ◌/◌, String, Bool, true, false, not, ◌||◌, List, [], ◌∷◌, ◌++◌, length, take,
  ltb, ◌==◌, if◌then◌else◌, str_eq, str_le,
}
use code_watch.Prelude.Int.{ℤ, pos, negsuc}
use code_watch.Prelude.Map.{Map}
use code_watch.Model.{Definition, DefinitionKind}
use code_watch.Graph.{Graph}

pub record ComplexityHotspot : Type 0 where
  pub module_name : String
  pub file : String
  pub definition : String
  pub kind : DefinitionKind
  pub score : ℕ
  pub branches : ℕ
  pub parameters : ℕ
  pub nesting : ℕ
  pub loc : ℕ

-- The test on `def.Kind`
abbrev pub is_callable : DefinitionKind → Bool
is_callable DefinitionKind.function = true
is_callable DefinitionKind.method = true
is_callable _ = false

abbrev pub weighted : Definition → ℕ
weighted d = d.branch_count * 2 + d.nesting_depth * 2 + d.parameter_count + d.loc / 10

-- `score`: a definition without one gets the weighted counts, and 1 where they are 0.
unfoldable pub hotspot_score : Definition → ℕ
hotspot_score d =
    if not (d.complexity_score == 0)
    then d.complexity_score
    else if weighted d == 0
    then 1
    else weighted d

unfoldable pub hotspot : String → Definition → ComplexityHotspot
unfolding hotspot_score
hotspot m d = record {
  module_name = m;
  file = d.location.file;
  definition = d.name;
  kind = d.kind;
  score = hotspot_score d;
  branches = d.branch_count;
  parameters = d.parameter_count;
  nesting = d.nesting_depth;
  loc = d.loc;
}

-- The inner loop, over the definitions of a module.
unfoldable pub hotspots_in : String → Map Definition → List ComplexityHotspot
unfolding hotspot
hotspots_in m [] = []
hotspots_in m ((name, d) ∷ ds) =
    let rest = hotspots_in m ds in
    if not (is_callable d.kind) then rest else if d.loc == 0 then rest else hotspot m d ∷ rest

-- The outer loop, over `g.definitions`.
unfoldable pub hotspots : Map (Map Definition) → List ComplexityHotspot
unfolding hotspots_in
hotspots [] = []
hotspots ((m, defs) ∷ rest) = hotspots_in m defs ++ hotspots rest

-- `s < t` on Go strings
abbrev before : String → String → Bool
before s t = not (str_le t s)

-- The test that `sort.Slice` is given.
unfoldable pub outranks : ComplexityHotspot → ComplexityHotspot → Bool
outranks a b =
    if a.score == b.score
    then if str_eq a.module_name b.module_name
      then if str_eq a.definition b.definition
        then before a.file b.file
        else before a.definition b.definition
      else before a.module_name b.module_name
    else ltb b.score a.score

unfoldable pub insert_hotspot : ComplexityHotspot → List ComplexityHotspot → List ComplexityHotspot
unfolding outranks
insert_hotspot h [] = h ∷ []
insert_hotspot h (x ∷ xs) =
    let rest = insert_hotspot h xs in if outranks x h then x ∷ rest else h ∷ x ∷ xs

-- `sort.Slice`
unfoldable pub sort_hotspots : List ComplexityHotspot → List ComplexityHotspot
unfolding insert_hotspot
sort_hotspots [] = []
sort_hotspots (h ∷ hs) = insert_hotspot h (sort_hotspots hs)

-- `if len(hotspots) > n { return hotspots[:n] }`
abbrev pub first_ones : ℕ → List ComplexityHotspot → List ComplexityHotspot
first_ones n hs = if ltb n (length hs) then take n hs else hs

-- `TopComplexity`
unfoldable pub top_complexity : ℤ → Graph → List ComplexityHotspot
unfolding hotspots sort_hotspots
top_complexity (negsuc n) g = []
top_complexity (pos n) g =
    if n == 0 then [] else first_ones n (sort_hotspots (hotspots g.definitions))
