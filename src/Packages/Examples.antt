-- ===== src/Packages/Examples.antt =====
-- A package rule on a graph, and the theorem at it.
use code_watch.Prelude.{String, true, false, ◌&&◌, ◌≡◌, none, List, [], ◌∷◌}
use code_watch.Prelude.Int.{pos}
use code_watch.Prelude.Map
use code_watch.Text.{GoText}
use code_watch.Graph.{Graph, ModuleInfo}
use code_watch.Graph.Links.{has_edge}
use code_watch.Layers.Paths.{PathText}
use code_watch.Packages.{Rule, evaluate, new_rule_evaluator}
use code_watch.Packages.Correct.{
  found, is_denied, is_counted, denied_by, over_limit_of, found-evaluate,
}

abbrev as_is : GoText
as_is = record { trim = λ s. s; lower = λ s. s; has_space = λ s. false }

abbrev plain : PathText
plain = record { clean = λ s. s; wildcard = λ s. false; compile = λ s. none }

abbrev rules : List Rule
rules =
    new_rule_evaluator as_is plain (λ s. s)
      (record {
        name = "small";
        modules = "internal/db" ∷ [];
        max_files = pos 1;
        imports_allow = [];
        imports_deny = "internal/ui" ∷ [];
        exclude_tests = true;
        exclude_files = [];
      }
        ∷ [])

abbrev module_of_files : String → List String → ModuleInfo
module_of_files m files = record {
  name = m;
  files = files;
  exports = [];
  max_complexity = 0;
  root_path = "";
}

abbrev upward : Graph
upward = record {
  file_cache = record { capacity = 1; items = []; order = []; fresh = 0 };
  file_to_module = [];
  file_to_language = [];
  modules =
      ("internal/db", module_of_files "internal/db" ("db.go" ∷ "rows.go" ∷ "db_test.go" ∷ []))
      ∷ ("internal/ui", module_of_files "internal/ui" ("ui.go" ∷ []))
      ∷ [];
  links = record {
    imports =
        (
          "internal/db",
          (
            "internal/ui",
            record {
              from = "internal/db";
              to = "internal/ui";
              imported_by = "db.go";
              location = record { file = "db.go"; line = 3; column = 1 };
            },
          )
              ∷ [],
        )
        ∷ [];
    imported_by = [];
  };
  definitions = [];
  dirty = [];
}

found-evaluate_example :
    (found
        (is_denied "internal/db" "internal/ui")
        (evaluate as_is plain (λ s. s) rules upward).violations
      ≡ (Map.has upward.modules "internal/db"
          && (has_edge upward.links "internal/db" "internal/ui"
              && (Map.has upward.modules "internal/ui"
                  && denied_by as_is plain (λ s. s) rules "internal/db" "internal/ui"))))
    × (found (is_counted "internal/db") (evaluate as_is plain (λ s. s) rules upward).violations
        ≡ over_limit_of as_is plain
            (λ s. s)
            rules
            "internal/db"
            (Map.get upward.modules "internal/db"))
found-evaluate_example =
    found-evaluate as_is plain (λ s. s) rules upward "internal/db" "internal/ui"
