-- ===== src/Layers.antt =====
-- internal/engine/graph/architecture.go: the rules for imports between layers.
pub mod Paths
pub mod Correct
pub mod Best
pub mod Examples
use Prim.Native.String.{len}
use code_watch.Prelude.{
  ℕ, zero, suc, String, Bool, true, false, not, ◌&&◌, ◌||◌, Option, none, some, List, [], ◌∷◌, ◌++◌,
  ltb, ◌==◌, if◌then◌else◌, str_eq, str_le, contains, sort_strings,
}
use code_watch.Prelude.Map
use code_watch.Prelude.Map.{Map}
use code_watch.Layers.Paths.{PathText, normalize, has_path_prefix}
use code_watch.Graph.{Graph, ModuleInfo}
use code_watch.Graph.Links.{ImportEdge}

pub record ArchitectureLayer : Type 0 where
  pub name : String
  pub paths : List String

pub record ArchitectureRule : Type 0 where
  pub name : String
  pub from : String
  pub allow : List String

pub record ArchitectureModel : Type 0 where
  pub enabled : Bool
  pub layers : List ArchitectureLayer
  pub rules : List ArchitectureRule

pub record ArchitectureViolation : Type 0 where
  pub rule_name : String
  pub from_module : String
  pub from_layer : String
  pub to_module : String
  pub to_layer : String
  pub file : String
  pub line : ℕ
  pub column : ℕ

pub record CompiledPattern : Type 0 where
  pub raw : String
  pub is_wildcard : Bool
  -- `none` is a nil glob
  pub glob : Option (String → Bool)

pub record LayerMatcher : Type 0 where
  pub name : String
  pub patterns : List CompiledPattern

pub record RuleSet : Type 0 where
  pub name : String
  -- the keys of the map
  pub allow : List String

pub record LayerRuleEngine : Type 0 where
  pub enabled : Bool
  pub layers : List LayerMatcher
  pub rules : Map RuleSet

pub record Candidate : Type 0 where
  pub layer : String
  pub score : ℕ

-- The order of `sort.Slice`: by score, the highest first, then by name.
unfoldable pub ranks_before : Candidate → Candidate → Bool
ranks_before a b =
    if a.score == b.score
    then str_le a.layer b.layer && not (str_eq a.layer b.layer)
    else ltb b.score a.score

unfoldable pub insert_candidate : Candidate → List Candidate → List Candidate
unfolding ranks_before
insert_candidate c [] = c ∷ []
insert_candidate c (d ∷ ds) = if ranks_before d c then d ∷ insert_candidate c ds else c ∷ d ∷ ds

unfoldable pub sort_candidates : List Candidate → List Candidate
unfolding insert_candidate
sort_candidates [] = []
sort_candidates (c ∷ cs) = insert_candidate c (sort_candidates cs)

unfoldable pub top_layer : List Candidate → String
top_layer [] = ""
top_layer (c ∷ cs) = c.layer

unfoldable pub add_rule : Map RuleSet → ArchitectureRule → Map RuleSet
add_rule m r = Map.put m r.from (record { name = r.name; allow = r.allow })

unfoldable pub add_rules : Map RuleSet → List ArchitectureRule → Map RuleSet
unfolding add_rule
add_rules m [] = m
add_rules m (r ∷ rs) = add_rules (add_rule m r) rs

module _ (text : PathText) where
  -- The body of the loop over a layer's paths; a wildcard that does not compile is left out.
  unfoldable pub compile_pattern : String → Option CompiledPattern
  unfolding normalize
  compile_pattern path =
      let raw = normalize text path in
      if text.wildcard raw
      then elim (text.compile raw) [
        | none ↦ none
        | some g ↦ some (record { raw = raw; is_wildcard = true; glob = some g })
      ]
      else some (record { raw = raw; is_wildcard = false; glob = none })

  unfoldable pub compile_patterns : List String → List CompiledPattern
  unfolding compile_pattern
  compile_patterns [] = []
  compile_patterns (path ∷ paths) =
      let rest = compile_patterns paths in
      elim (compile_pattern path) [ none ↦ rest | some cp ↦ cp ∷ rest ]

  unfoldable pub layer_matchers : List ArchitectureLayer → List LayerMatcher
  unfolding compile_patterns
  layer_matchers [] = []
  layer_matchers (l ∷ ls) =
      record { name = l.name; patterns = compile_patterns l.paths } ∷ layer_matchers ls

  -- `NewLayerRuleEngine`
  unfoldable pub new_layer_rule_engine : ArchitectureModel → LayerRuleEngine
  unfolding layer_matchers add_rules
  new_layer_rule_engine model = record {
    enabled = model.enabled;
    layers = layer_matchers model.layers;
    rules = add_rules [] model.rules;
  }

  unfoldable pub glob_matches : Option (String → Bool) → String → Bool
  glob_matches none s = false
  glob_matches (some g) s = g s

  -- `matchPattern`
  unfoldable pub match_pattern : CompiledPattern → String → String → Bool
  unfolding glob_matches has_path_prefix
  match_pattern p module_name sample_path =
      if p.is_wildcard
      then glob_matches p.glob module_name
        || (not (str_eq sample_path "") && glob_matches p.glob sample_path)
      else has_path_prefix text module_name p.raw
        || (not (str_eq sample_path "") && has_path_prefix text sample_path p.raw)

  -- The loop over a layer's patterns.
  unfoldable pub best_score : ℕ → String → String → List CompiledPattern → ℕ
  unfolding match_pattern
  best_score best m path [] = best
  best_score best m path (p ∷ ps) =
      best_score
        (if match_pattern p m path
          then (if ltb best (len p.raw) then len p.raw else best)
          else best)
        m path ps

  unfoldable pub candidates : String → String → List LayerMatcher → List Candidate
  unfolding best_score
  candidates m path [] = []
  candidates m path (l ∷ ls) =
      let rest = candidates m path ls in
      let best = best_score 0 m path l.patterns in
      if ltb 0 best then record { layer = l.name; score = best } ∷ rest else rest

  unfoldable pub sample_path : ModuleInfo → String
  unfolding normalize
  sample_path info = elim (sort_strings info.files) [ [] ↦ "" | p ∷ ps ↦ normalize text p ]

  -- `layerFor`
  unfoldable pub layer_for : LayerRuleEngine → String → ModuleInfo → String
  unfolding normalize candidates sample_path sort_candidates top_layer
  layer_for e m info =
      top_layer (sort_candidates (candidates (normalize text m) (sample_path info) e.layers))

  -- `moduleLayer`
  unfoldable pub module_layers : LayerRuleEngine → Map ModuleInfo → Map String
  unfolding layer_for
  module_layers e [] = []
  module_layers e ((m, info) ∷ ms) = (m, layer_for e m info) ∷ module_layers e ms

-- A read of `moduleLayer`.
abbrev pub layer_in : Map String → String → String
layer_in layers m = elim (Map.get layers m) [ none ↦ "" | some l ↦ l ]

abbrev pub violation : RuleSet → Map String → String → String → ImportEdge → ArchitectureViolation
violation rule layers from to edge = record {
  rule_name = rule.name;
  from_module = from;
  from_layer = layer_in layers from;
  to_module = to;
  to_layer = layer_in layers to;
  file = edge.imported_by;
  line = edge.location.line;
  column = edge.location.column;
}

-- The loop over `toMods`; each is a key of the row.
unfoldable pub check_targets :
    RuleSet → Map String → String → Map ImportEdge → List String → List ArchitectureViolation
check_targets rule layers from row [] = []
check_targets rule layers from row (to ∷ tos) =
    let rest = check_targets rule layers from row tos in
    if str_eq (layer_in layers to) ""
    then rest
    else if contains (layer_in layers to) rule.allow
    then rest
    else elim (Map.get row to) [
      | none ↦ rest
      | some edge ↦ violation rule layers from to edge ∷ rest
    ]

-- The body of the loop over `fromMods`.
unfoldable pub check_module :
    LayerRuleEngine → Map String → Map (Map ImportEdge) → String → List ArchitectureViolation
unfolding check_targets
check_module e layers imports from = elim (Map.get e.rules (layer_in layers from)) [
  | none ↦ []
  | some rule ↦
      check_targets rule layers from (Map.inner imports from)
        (sort_strings (Map.keys (Map.inner imports from)))
]

unfoldable pub check_modules :
    LayerRuleEngine → Map String → Map (Map ImportEdge) → List String → List ArchitectureViolation
unfolding check_module
check_modules e layers imports [] = []
check_modules e layers imports (from ∷ froms) =
    check_module e layers imports from ++ check_modules e layers imports froms

-- `Validate`
unfoldable pub validate : PathText → LayerRuleEngine → Graph → List ArchitectureViolation
unfolding module_layers check_modules
validate text e g =
    if e.enabled
    then check_modules e (module_layers text e g.modules) g.links.imports
        (sort_strings (Map.keys g.links.imports))
    else []
