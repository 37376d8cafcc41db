-- ===== src/Packages.antt =====
-- internal/engine/architecture/rules.go and evaluator.go: the rules for packages.
pub mod Counts
pub mod Correct
pub mod Examples
use Prim.Native.String.{len, slice}
use text.Mathlib.Text.{starts_with}
use code_watch.Prelude.{
  ℕ, ◌+◌, ◌-◌, String, Bool, true, false, not, ◌&&◌, ◌||◌, Option, none, some, List, [], ◌∷◌, ◌++◌,
  length, ltb, leb, if◌then◌else◌, str_eq, str_le, sort_strings, is_some,
}
use code_watch.Prelude.Int.{ℤ, pos, negsuc, lessℤ}
use code_watch.Prelude.Map
use code_watch.Prelude.Map.{Map}
use code_watch.Text.{GoText}
use code_watch.Graph.{Graph, ModuleInfo}
use code_watch.Graph.Links.{ImportEdge}
use code_watch.Layers.Paths.{PathText, normalize, has_path_prefix}
use code_watch.Layers.{CompiledPattern, glob_matches}
use code_watch.Config.Rules.{PackageRule}
use code_watch.Config.Sections.{is_empty}

pub record Rule : Type 0 where
  pub name : String
  pub modules : List CompiledPattern
  pub max_files : ℤ
  pub import_allow : List CompiledPattern
  pub import_deny : List CompiledPattern
  pub exclude_files : List CompiledPattern
  pub exclude_tests : Bool

-- `ports.ArchitectureRuleViolation`, by its type
pub data Violation : Type 0 where
  -- the rule, the module, the limit and the count
  file_count : String → String → ℤ → ℕ → Violation
  -- the rule, the module, the target and the edge
  denied_import : String → String → String → ImportEdge → Violation

pub record EvaluationResult : Type 0 where
  pub violations : List Violation
  pub evaluated_modules : ℕ

-- `HasSuffix`
abbrev pub ends_with : String → String → Bool
ends_with s suffix =
    leb (len suffix) (len s) && str_eq (slice s (len s - len suffix) (len s)) suffix

abbrev no_result : EvaluationResult
no_result = record { violations = []; evaluated_modules = 0 }

module _ (text : GoText) (paths : PathText) (base : String → String) where
  -- The body of the loop of `compilePatterns`; `none` is skipped.
  unfoldable pub compile_rule_pattern : String → Option CompiledPattern
  unfolding normalize
  compile_rule_pattern pattern =
      let norm = normalize paths pattern in
      if str_eq norm ""
      then none
      else if paths.wildcard norm
      then elim (paths.compile norm) [
        | none ↦ none
        | some g ↦ some (record { raw = norm; is_wildcard = true; glob = some g })
      ]
      else some (record { raw = norm; is_wildcard = false; glob = none })

  abbrev kept : Option CompiledPattern → List CompiledPattern → List CompiledPattern
  kept none cps = cps
  kept (some cp) cps = cp ∷ cps

  unfoldable pub compile_rule_patterns : List String → List CompiledPattern
  unfolding compile_rule_pattern
  compile_rule_patterns [] = []
  compile_rule_patterns (p ∷ ps) = kept (compile_rule_pattern p) (compile_rule_patterns ps)

  -- The test of the loop of `matchPatterns` on the normalized module name and path.
  unfoldable pub pattern_hits : String → String → CompiledPattern → Bool
  unfolding glob_matches has_path_prefix
  pattern_hits mod_name path p =
      if p.is_wildcard
      then glob_matches paths p.glob mod_name
        || (not (str_eq path "") && glob_matches paths p.glob path)
      else has_path_prefix paths mod_name p.raw
        || (not (str_eq path "") && has_path_prefix paths path p.raw)

  abbrev pub any_hits : String → String → List CompiledPattern → Bool
  any_hits mod_name path [] = false
  any_hits mod_name path (p ∷ ps) = pattern_hits mod_name path p || any_hits mod_name path ps

  unfoldable pub match_patterns : List CompiledPattern → String → String → Bool
  unfolding pattern_hits normalize
  match_patterns patterns module_name sample_path =
      any_hits (normalize paths module_name) (normalize paths sample_path) patterns

  -- `NewRuleSet` on rules that are all of the package kind
  unfoldable pub new_rule_set : List PackageRule → List Rule
  unfolding compile_rule_patterns
  new_rule_set [] = []
  new_rule_set (r ∷ rs) =
      record {
        name = r.name;
        modules = compile_rule_patterns r.modules;
        max_files = r.max_files;
        import_allow = compile_rule_patterns r.imports_allow;
        import_deny = compile_rule_patterns r.imports_deny;
        exclude_files = compile_rule_patterns r.exclude_files;
        exclude_tests = r.exclude_tests;
      }
      ∷ new_rule_set rs

  -- `MatchesModule`
  unfoldable pub matches_module : Rule → String → Bool
  unfolding match_patterns
  matches_module r m = match_patterns r.modules m ""

  -- `AllowsImport`
  unfoldable pub allows_import : Rule → String → Bool
  unfolding match_patterns
  allows_import r target =
      if match_patterns r.import_deny target ""
      then false
      else if is_empty r.import_allow
      then true
      else match_patterns r.import_allow target ""

  unfoldable pub is_test_file : String → Bool
  is_test_file path =
      let name = text.lower (base path) in
      if ends_with name "_test.go" || ends_with name "_test.py"
      then true
      else if starts_with name "test_" && ends_with name ".py"
      then true
      else false

  -- `ExcludesFile`
  unfoldable pub excludes_file : Rule → String → Bool
  unfolding match_patterns is_test_file
  excludes_file r path =
      if r.exclude_tests && is_test_file path
      then true
      else if match_patterns r.exclude_files path (base path)
      then true
      else false

  -- The loop of `countFiles`.
  unfoldable pub count_kept : Rule → List String → ℕ
  unfolding excludes_file
  count_kept r [] = 0
  count_kept r (path ∷ files) =
      let rest = count_kept r files in if excludes_file r path then rest else rest + 1

  unfoldable pub count_files : ModuleInfo → Rule → ℕ
  unfolding count_kept
  count_files info r = count_kept r (sort_strings info.files)

  -- The test of a module's file count against a rule.
  unfoldable pub check_count : Rule → String → ModuleInfo → List Violation
  unfolding count_files
  check_count r m info =
      if lessℤ (pos 0) r.max_files && lessℤ r.max_files (pos (count_files info r))
      then file_count r.name m r.max_files (count_files info r) ∷ []
      else []

  -- The loop over the sorted targets, which are keys of the row.
  unfoldable pub check_imports :
      Rule → Map ModuleInfo → String → Map ImportEdge → List String → List Violation
  unfolding allows_import
  check_imports r modules m row [] = []
  check_imports r modules m row (target ∷ targets) =
      let rest = check_imports r modules m row targets in
      if not (Map.has modules target)
      then rest
      else if allows_import r target
      then rest
      else elim (Map.get row target) [
        | none ↦ rest
        | some edge ↦ denied_import r.name m target edge ∷ rest
      ]

  -- The violations of a rule that the module matches.
  unfoldable pub check_rule :
      Map ModuleInfo → Map (Map ImportEdge) → String → ModuleInfo → Rule → List Violation
  unfolding check_count check_imports
  check_rule modules imports m info r =
      check_count r m info
      ++ (if not (is_empty r.import_allow) || not (is_empty r.import_deny)
          then check_imports r modules m (Map.inner imports m)
              (sort_strings (Map.keys (Map.inner imports m)))
          else [])

  -- The loop over the rules.
  unfoldable pub check_rules :
      Map ModuleInfo → Map (Map ImportEdge) → String → ModuleInfo → List Rule → List Violation
  unfolding matches_module check_rule
  check_rules modules imports m info [] = []
  check_rules modules imports m info (r ∷ rs) =
      let rest = check_rules modules imports m info rs in
      if matches_module r m then check_rule modules imports m info r ++ rest else rest

  -- `matched`
  abbrev pub any_matches : String → List Rule → Bool
  any_matches m [] = false
  any_matches m (r ∷ rs) = matches_module r m || any_matches m rs

  -- The body of the loop over the modules, before the results for the others.
  unfoldable pub evaluate_module :
      Map ModuleInfo
      → Map (Map ImportEdge)
      → List Rule
      → String
      → Option ModuleInfo
      → EvaluationResult
      → EvaluationResult
  unfolding check_rules matches_module
  evaluate_module modules imports rules m none rest = rest
  evaluate_module modules imports rules m (some info) rest = record {
    violations = check_rules modules imports m info rules ++ rest.violations;
    evaluated_modules =
        if any_matches m rules then rest.evaluated_modules + 1 else rest.evaluated_modules;
  }

  -- The loop over the sorted names of the modules.
  unfoldable pub evaluate_modules :
      Map ModuleInfo → Map (Map ImportEdge) → List Rule → List String → EvaluationResult
  unfolding evaluate_module
  evaluate_modules modules imports rules [] = no_result
  evaluate_modules modules imports rules (m ∷ ms) =
      evaluate_module modules imports rules m (Map.get modules m)
        (evaluate_modules modules imports rules ms)

  -- The order of `sortRules`: by name, then by the number of module patterns.
  abbrev rule_before : Rule → Rule → Bool
  rule_before a b =
      if str_eq a.name b.name
      then ltb (length a.modules) (length b.modules)
      else str_le a.name b.name

  unfoldable pub insert_rule : Rule → List Rule → List Rule
  insert_rule r [] = r ∷ []
  insert_rule r (s ∷ ss) =
      let rest = insert_rule r ss in if rule_before s r then s ∷ rest else r ∷ s ∷ ss

  unfoldable pub sort_rules : List Rule → List Rule
  unfolding insert_rule
  sort_rules [] = []
  sort_rules (r ∷ rs) = insert_rule r (sort_rules rs)

  -- `NewRuleEvaluator`
  unfoldable pub new_rule_evaluator : List PackageRule → List Rule
  unfolding new_rule_set sort_rules
  new_rule_evaluator rules = sort_rules (new_rule_set rules)

  -- `Evaluate`
  unfoldable pub evaluate : List Rule → Graph → EvaluationResult
  unfolding evaluate_modules
  evaluate rules g =
      if is_empty rules
      then no_result
      else evaluate_modules g.modules g.links.imports rules (sort_strings (Map.keys g.modules))
