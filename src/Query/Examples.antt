-- ===== src/Query/Examples.antt =====
-- Queries of a graph, and the theorems at them.
use text.Mathlib.Text.{find?}
use code_watch.Prelude.{
  String, Bool, true, false, ◌||◌, ◌≡◌, refl, none, some, List, [], ◌∷◌, is_some, str_eq,
}
use code_watch.Prelude.Int.{pos}
use code_watch.Text.{GoText}
use code_watch.Graph.{Graph, ModuleInfo}
use code_watch.Graph.Links.{ImportEdge}
use code_watch.Query.Cql.{CqlGrammar, CqlCondition, parse_cql}
use code_watch.Query.{ModuleSummary, list_modules, execute_cql, metrics_of, summary}
use code_watch.Prelude.Unique.{all}
use code_watch.Query.Spec.{holds}
use code_watch.Query.Rows.{IsSelection, list_modules-IsSelection, execute_cql-IsSelection}
use code_watch.Query.Counts.{importers, summary-importers}

abbrev as_is : GoText
as_is = record { trim = λ s. s; lower = λ s. s; has_space = λ s. false }

-- A grammar of which every query asks for modules that another one imports.
abbrev one_query : CqlGrammar
one_query = record {
  select = λ s. some s;
  split_and = λ s. s ∷ [];
  numeric = λ s. some ("reverse_dependency_count", ">", "0");
  contains_cond = λ s. none;
  string_cond = λ s. none;
  atoi = λ s. some (pos 0);
  equal_fold = λ s t. str_eq s t;
}

abbrev edge : String → String → ImportEdge
edge a b = record {
  from = a;
  to = b;
  imported_by = "a.go";
  location = record { file = "a.go"; line = 1; column = 1 };
}

abbrev named : String → ModuleInfo
named m = record { name = m; files = []; exports = []; max_complexity = 0; root_path = "" }

-- a -> b, c -> b
abbrev fan : Graph
fan = record {
  file_cache = record { capacity = 1; items = []; order = []; fresh = 0 };
  file_to_module = [];
  file_to_language = [];
  modules = ("b", named "b") ∷ ("a", named "a") ∷ ("c", named "c") ∷ [];
  links = record {
    imports = ("a", ("b", edge "a" "b") ∷ []) ∷ ("c", ("b", edge "c" "b") ∷ []) ∷ [];
    imported_by = [];
  };
  definitions = [];
  dirty = [];
}

list_modules-IsSelection_example :
    IsSelection
      (λ row.
        str_eq (as_is.lower (as_is.trim "a")) ""
        || is_some (find? (as_is.lower row.name) (as_is.lower (as_is.trim "a"))))
      (pos 1)
      fan
      (list_modules as_is "a" (pos 1) fan)
list_modules-IsSelection_example = list_modules-IsSelection as_is "a" (pos 1) fan

execute_cql-IsSelection_example :
    ((parse_cql as_is one_query "q" ≡ none) → execute_cql as_is one_query [] "q" (pos 2) fan ≡ none)
    × ((cs : List CqlCondition)
        → parse_cql as_is one_query "q" ≡ some cs
        → (rows : List ModuleSummary) × (execute_cql as_is one_query [] "q" (pos 2) fan ≡ some rows)
          × IsSelection
              (λ row. all (holds as_is one_query row (metrics_of as_is [] row.name)) cs)
              (pos 2)
              fan
              rows)
execute_cql-IsSelection_example = execute_cql-IsSelection as_is one_query [] "q" (pos 2) fan

summary-importers_example :
    (summary fan "b" (named "b")).reverse_dependency_count ≡ importers "b" fan.links.imports
unfolding code_watch.Prelude.Unique.unique code_watch.Prelude.Map.keys
summary-importers_example = summary-importers fan "b" (named "b") (refl, (refl, tt))
