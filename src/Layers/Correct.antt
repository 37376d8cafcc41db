-- ===== src/Layers/Correct.antt =====
-- internal/engine/graph/architecture.go: what `Validate` reports, and the imports that a rule forbids.
use code_watch.Prelude.{
  String, Bool, true, false, not, ◌&&◌, ◌||◌, ◌≡◌, refl, ap, ◌∙◌, inl, inr, Option, none, some,
  List, [], ◌∷◌, ◌++◌, arith, if◌then◌else◌, str_eq, eq_iff, contains, sort_strings,
  contains-sort_strings, Option-cases, is_some,
}
use code_watch.Prelude.Map
use code_watch.Prelude.Map.{Map}
use code_watch.Graph.{Graph, ModuleInfo}
use code_watch.Graph.Links.{ImportEdge, has_edge}
use code_watch.Layers.Paths.{PathText}
use code_watch.Layers.{
  ArchitectureViolation, RuleSet, LayerRuleEngine, layer_for, module_layers, layer_in, violation,
  check_targets, check_module, check_modules, validate,
}

-- The layer of a module of the graph, and "" for any other name.
abbrev pub layer_of : PathText → LayerRuleEngine → Graph → String → String
layer_of text e g m = elim (Map.get g.modules m) [ none ↦ "" | some info ↦ layer_for text e m info ]

-- The rule for the importing layer exists and does not allow the layer of the target, which has one.
abbrev pub forbids : LayerRuleEngine → String → String → Bool
forbids e from_layer to_layer = elim (Map.get e.rules from_layer) [
  | none ↦ false
  | some rule ↦ not (str_eq to_layer "") && not (contains to_layer rule.allow)
]

-- Whether a list has a violation for these two modules.
abbrev pub reports : String → String → List ArchitectureViolation → Bool
reports from to [] = false
reports from to (v ∷ vs) =
    (str_eq v.from_module from && str_eq v.to_module to) || reports from to vs

reports-append :
    (from to : String) (vs ws : List ArchitectureViolation)
    → reports from to (vs ++ ws) ≡ (reports from to vs || reports from to ws)
reports-append from to [] ws = refl
reports-append from to (v ∷ vs) ws = ground (arith, reports-append from to vs ws)

layer_in-module_layers :
    (text : PathText) (e : LayerRuleEngine) (ms : Map ModuleInfo) (m : String)
    → layer_in (module_layers text e ms) m
      ≡ (elim (Map.get ms m) [ none ↦ "" | some info ↦ layer_for text e m info ])
unfolding module_layers Map.get
layer_in-module_layers text e [] m = refl
layer_in-module_layers text e ((j, info) ∷ ms) m = ground (
  arith,
  layer_in-module_layers text e ms m,
  eq_iff j m,
  ap (λ z. layer_for text e z info) {x = j} {y = m},
)

-- What one target adds, given the tests of the loop.
reports-head :
    (rule : RuleSet) (layers : Map String) (from to a b : String)
    (rest : List ArchitectureViolation)
    → (unlayered allowed : Bool) (o : Option ImportEdge)
    → reports a b (
        if unlayered
        then rest
        else if allowed
        then rest
        else elim o [ none ↦ rest | some edge ↦ violation rule layers from to edge ∷ rest ])
      ≡ ((not unlayered && not allowed && is_some o && (str_eq from a && str_eq to b))
          || reports a b rest)
reports-head rule layers from to a b rest true allowed o = refl
reports-head rule layers from to a b rest false true o = refl
reports-head rule layers from to a b rest false false none = refl
reports-head rule layers from to a b rest false false (some edge) = refl

-- The target's tests as one.
abbrev banned : RuleSet → Map String → Map ImportEdge → String → Bool
banned rule layers row b =
    not (str_eq (layer_in layers b) "")
    && not (contains (layer_in layers b) rule.allow)
    && Map.has row b

joins :
    (layered refused known from_is to_is is_to b_in banned_b rest : Bool)
    → (to_is ≡ true → (layered && refused && known) ≡ banned_b)
    → is_to ≡ to_is
    → rest ≡ (from_is && b_in && banned_b)
    → ((layered && refused && known && (from_is && to_is)) || rest)
      ≡ (from_is && (is_to || b_in) && banned_b)
joins layered refused known from_is to_is is_to b_in banned_b rest h k e = ground arith

follows :
    (from_is is_from later here there found rest : Bool)
    → (from_is ≡ true → here ≡ there)
    → is_from ≡ from_is
    → found ≡ (from_is && here)
    → rest ≡ (later && there)
    → (found || rest) ≡ ((is_from || later) && there)
follows from_is is_from later here there found rest h k e f = ground arith

enabled_only :
    (enabled : Bool) (vs : List ArchitectureViolation) (from to : String)
    → reports from to (if enabled then vs else []) ≡ (enabled && reports from to vs)
enabled_only true vs from to = refl
enabled_only false vs from to = refl

str_eq_sym : (s t : String) → str_eq s t ≡ str_eq t s
str_eq_sym s t = ground (arith, eq_iff s t, eq_iff t s)

reports-check_targets :
    (rule : RuleSet) (layers : Map String) (from : String) (row : Map ImportEdge)
    (tos : List String)
    → (a b : String)
    → reports a b (check_targets rule layers from row tos)
      ≡ (str_eq from a && contains b tos && banned rule layers row b)
unfolding check_targets contains
reports-check_targets rule layers from row [] a b = ground arith
reports-check_targets rule layers from row (to ∷ tos) a b =
    reports-head rule layers from to a b (check_targets rule layers from row tos)
      (str_eq (layer_in layers to) "") (contains (layer_in layers to) rule.allow) (Map.get row to)
    ∙ joins (not (str_eq (layer_in layers to) "")) (not (contains (layer_in layers to) rule.allow))
        (Map.has row to) (str_eq from a) (str_eq to b) (str_eq b to) (contains b tos)
        (banned rule layers row b) (reports a b (check_targets rule layers from row tos))
        (λ e. ap (banned rule layers row) ((eq_iff to b).0 e)) (str_eq_sym b to)
        (reports-check_targets rule layers from row tos a b)

reports-check_module :
    (e : LayerRuleEngine) (layers : Map String) (imports : Map (Map ImportEdge)) (from a b : String)
    → reports a b (check_module e layers imports from) ≡ (
        str_eq from a
        && (Map.cell imports from b && forbids e (layer_in layers from) (layer_in layers b)))
unfolding check_module
reports-check_module e layers imports from a b =
    elim (Option-cases (Map.get e.rules (layer_in layers from))) [
      | inl none_here ↦ rw (none_here, check_module) (ground arith)
      | inr (rule, here) ↦
          let row = Map.inner imports from in
          rw (here, check_module)
            (reports-check_targets rule layers from row (sort_strings (Map.keys row)) a b
              ∙ ground (arith, contains-sort_strings b (Map.keys row), Map.contains-keys row b))
    ]

reports-check_modules :
    (e : LayerRuleEngine) (layers : Map String) (imports : Map (Map ImportEdge))
    (froms : List String)
    → (a b : String)
    → reports a b (check_modules e layers imports froms) ≡ (
        contains a froms
        && (Map.cell imports a b && forbids e (layer_in layers a) (layer_in layers b)))
unfolding check_modules contains
reports-check_modules e layers imports [] a b = ground arith
reports-check_modules e layers imports (from ∷ froms) a b =
    reports-append a b (check_module e layers imports from) (check_modules e layers imports froms)
    ∙ follows (str_eq from a) (str_eq a from) (contains a froms) _ _ _ _
        (λ h.
          ap (λ z. Map.cell imports z b && forbids e (layer_in layers z) (layer_in layers b))
            ((eq_iff from a).0 h))
        (str_eq_sym a from) (reports-check_module e layers imports from a b)
        (reports-check_modules e layers imports froms a b)

-- A module with an import has a row.
row_of_cell :
    (imports : Map (Map ImportEdge)) (a b : String) (r : Bool)
    → (contains a (sort_strings (Map.keys imports)) && (Map.cell imports a b && r))
      ≡ (Map.cell imports a b && r)
row_of_cell imports a b r = elim (Option-cases (Map.get imports a)) [
  | inl e ↦
      let no_cell : Map.cell imports a b ≡ false =
        ap (λ o. is_some (Map.get (elim o [ none ↦ [] | some row ↦ row ]) b)) e
        ∙ ap is_some (Map.get-empty b) in
      ground (arith, no_cell)
  | inr (row, e) ↦
      let listed : contains a (sort_strings (Map.keys imports)) ≡ true =
        contains-sort_strings a (Map.keys imports) ∙ Map.contains-keys imports a ∙ ap is_some e in
      ap (λ c. c && (Map.cell imports a b && r)) listed
]

-- `Validate` reports a violation from one module to another exactly if the engine is enabled, the
-- graph has the import, and a rule forbids it: there is one for the layer of the importing module,
-- the target has a layer, and the rule does not allow that.
pub reports-validate :
    (text : PathText) (e : LayerRuleEngine) (g : Graph) (from to : String)
    → reports from to (validate text e g) ≡ (
        e.enabled
        && (has_edge g.links from to && forbids e (layer_of text e g from) (layer_of text e g to)))
unfolding validate
reports-validate text e g from to =
    let layers = module_layers text e g.modules in
    let froms = sort_strings (Map.keys g.links.imports) in
    enabled_only e.enabled (check_modules e layers g.links.imports froms) from to
    ∙ ap (λ b. e.enabled && b)
        (reports-check_modules e layers g.links.imports froms from to
          ∙ row_of_cell g.links.imports from to
              (forbids e (layer_in layers from) (layer_in layers to))
          ∙ ap (λ l. has_edge g.links from to && forbids e l (layer_in layers to))
              (layer_in-module_layers text e g.modules from)
          ∙ ap (λ l. has_edge g.links from to && forbids e (layer_of text e g from) l)
              (layer_in-module_layers text e g.modules to))
