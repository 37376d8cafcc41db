-- ===== src/Layers/Examples.antt =====
-- A run of the layer rules, and the theorems at it.
use code_watch.Prelude.{String, true, false, ◌&&◌, ◌≡◌, none, [], ◌∷◌}
use code_watch.Graph.{Graph, ModuleInfo}
use code_watch.Graph.Links.{ImportEdge, has_edge}
use code_watch.Layers.Paths.{PathText}
use code_watch.Layers.{LayerRuleEngine, new_layer_rule_engine, layer_for, validate}
use code_watch.Layers.Correct.{layer_of, forbids, reports, reports-validate}
use code_watch.Layers.Best.{IsBest, layer_for-IsBest}

-- Texts that are clean as they stand, and a glob library that compiles none.
abbrev plain : PathText
plain = record { clean = λ s. s; wildcard = λ s. false; compile = λ s. none }

abbrev engine : LayerRuleEngine
engine = new_layer_rule_engine plain (record {
  enabled = true;
  layers =
      record { name = "db"; paths = "internal/db" ∷ [] }
      ∷ record { name = "ui"; paths = "internal/ui" ∷ [] }
      ∷ [];
  rules = record { name = "no ui"; from = "db"; allow = [] } ∷ [];
})

abbrev module_named : String → ModuleInfo
module_named m = record { name = m; files = []; exports = []; max_complexity = 0; root_path = "" }

abbrev upward : ImportEdge
upward = record {
  from = "internal/db";
  to = "internal/ui";
  imported_by = "db.go";
  location = record { file = "db.go"; line = 3; column = 1 };
}

abbrev layered : Graph
layered = record {
  file_cache = record { capacity = 1; items = []; order = []; fresh = 0 };
  file_to_module = [];
  file_to_language = [];
  modules =
      ("internal/db", module_named "internal/db")
      ∷ ("internal/ui", module_named "internal/ui")
      ∷ [];
  links = record { imports = ("internal/db", ("internal/ui", upward) ∷ []) ∷ []; imported_by = [] };
  definitions = [];
  dirty = [];
}

reports-validate_example : reports "internal/db" "internal/ui" (validate plain engine layered) ≡ (
    engine.enabled
    && (has_edge layered.links "internal/db" "internal/ui"
        && forbids engine
            (layer_of plain engine layered "internal/db")
            (layer_of plain engine layered "internal/ui")))
reports-validate_example = reports-validate plain engine layered "internal/db" "internal/ui"

layer_for-IsBest_example :
    IsBest plain engine "internal/db"
      (module_named "internal/db")
      (layer_for plain engine "internal/db" (module_named "internal/db"))
layer_for-IsBest_example = layer_for-IsBest plain engine "internal/db" (module_named "internal/db")
