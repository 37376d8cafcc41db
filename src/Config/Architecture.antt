-- ===== src/Config/Architecture.antt =====
-- internal/core/config/validator.go: the check of the layers and of the rules between them.
use code_watch.Prelude.{
  String, Bool, false, not, ◌&&◌, ◌||◌, Option, none, some, List, [], ◌∷◌, if◌then◌else◌, is_some,
  str_eq, contains,
}
use code_watch.Prelude.Int.{pos, lessℤ}
use code_watch.Prelude.Map
use code_watch.Prelude.Map.{Map}
use code_watch.Text.{GoText, GoPath, blank}
use code_watch.Config.Types.{
  Architecture, LayerEntry, RuleEntry, Fault, empty_value, out_of_range, not_one_of, duplicate,
  unknown, conflict, missing, invalid,
}
use code_watch.Config.Loops.{check_each, or_else}
use code_watch.Config.Sections.{is_empty}
use code_watch.Config.Wildcards.{has_wildcard, is_path_overlap, wildcard_patterns_overlap}

-- The three maps of the loop over the layers, from a path to the layer that declares it.
pub record Owners : Type 0 where
  pub pattern_owner : Map String
  pub literal_paths : Map String
  pub wildcard_patterns : Map String

abbrev pub no_owners : Owners
no_owners = record { pattern_owner = []; literal_paths = []; wildcard_patterns = [] }

-- A loop over a map of paths: whether a path of another layer passes the test.
abbrev pub clashes : (String → Bool) → String → Map String → Bool
clashes test layer [] = false
clashes test layer ((existing, owner) ∷ m) =
    (not (str_eq owner layer) && test existing) || clashes test layer m

abbrev pub owned_elsewhere : String → Option String → Bool
owned_elsewhere layer none = false
owned_elsewhere layer (some owner) = not (str_eq owner layer)

abbrev pub for_layers : String → Bool
for_layers kind = str_eq kind "" || str_eq kind "layer"

abbrev pub layer_names : List LayerEntry → List String
layer_names [] = []
layer_names (l ∷ ls) = l.name ∷ layer_names ls

module _ (text : GoText) where
  -- A rule's kind where it is not left to be inferred.
  abbrev pub written_kind : RuleEntry → String
  written_kind r = text.trim (text.lower r.kind)

  -- The kind as the loop over the rules infers it.
  abbrev pub checked_kind : RuleEntry → String
  checked_kind r =
      let kind = written_kind r in
      if str_eq kind "" && (not (str_eq r.from "") || not (is_empty r.allow)) then "layer" else kind

  -- The kind as the test for layer rules infers it, and `ArchitectureModelFromConfig`.
  abbrev pub inferred_kind : RuleEntry → String
  inferred_kind r =
      let kind = written_kind r in
      if str_eq kind "" && (not (str_eq r.from "") || not (is_empty r.allow))
      then "layer"
      else if str_eq kind "" && not (is_empty r.modules)
      then "package"
      else kind

  unfoldable pub has_layer_rules : List RuleEntry → Bool
  has_layer_rules [] = false
  has_layer_rules (r ∷ rs) = for_layers (inferred_kind r) || has_layer_rules rs

  -- The loop over a rule's allowed layers, with those seen so far.
  unfoldable pub check_allowed : List String → List String → List String → Option Fault
  unfolding contains
  check_allowed layers seen [] = none
  check_allowed layers seen (to ∷ tos) =
      let rest = check_allowed layers (to ∷ seen) tos in
      if not (contains to layers)
      then some (unknown "allowed layer" to)
      else if contains to seen
      then some (duplicate "allowed layer" to)
      else rest

  -- The case of a layer rule; `froms` are the keys of `ruleByFrom`.
  unfoldable pub check_layer_rule : List String → List String → RuleEntry → Option Fault
  unfolding contains check_allowed
  check_layer_rule layers froms r =
      if not (contains r.from layers)
      then some (unknown "from layer" r.from)
      else if contains r.from froms
      then some (duplicate "rules of the architecture layer" r.from)
      else if is_empty r.allow
      then some (missing "allowed layer")
      else check_allowed layers [] r.allow

  abbrev check_texts : String → List String → Option Fault
  check_texts what xs = check_each (blank text) (λ x. x) (empty_value what) what [] xs

  unfoldable pub check_package_rule : RuleEntry → Option Fault
  unfolding check_each
  check_package_rule r =
      if is_empty r.modules
      then some (missing "module pattern")
      else if not (lessℤ (pos 0) r.max_files)
          && (is_empty r.imports_allow && is_empty r.imports_deny)
      then some (missing "max_files or imports")
      else if lessℤ r.max_files (pos 0)
      then some (out_of_range "max_files")
      else or_else (check_texts "module pattern" r.modules) (
          or_else (check_texts "imports.allow" r.imports_allow) (
            or_else (check_texts "imports.deny" r.imports_deny)
              (check_texts "exclude.files" r.exclude_files)))

  -- The loop over the rules, with the rules' names and the layers that have a rule.
  unfoldable pub check_rules :
      List String → List String → List String → List RuleEntry → Option Fault
  unfolding contains check_layer_rule check_package_rule
  check_rules layers names froms [] = none
  check_rules layers names froms (r ∷ rs) =
      let kind = checked_kind r in
      let after_layer = check_rules layers (r.name ∷ names) (r.from ∷ froms) rs in
      let after_package = check_rules layers (r.name ∷ names) froms rs in
      if blank text r.name
      then some (empty_value "rule name")
      else if contains r.name names
      then some (duplicate "architecture rule name" r.name)
      else if for_layers kind
      then or_else (check_layer_rule layers froms r) after_layer
      else if str_eq kind "package"
      then or_else (check_package_rule r) after_package
      else some (not_one_of "kind")

module _ (text : GoText) (path : GoPath) where
  -- The body of the loop over a layer's paths: an error, or the maps with the path in.
  unfoldable pub claim_path : String → Owners → String → (Option Fault) × Owners
  unfolding has_wildcard is_path_overlap wildcard_patterns_overlap
  claim_path layer o raw =
      let p = text.trim (path.clean raw) in
      let owners = Map.put o.pattern_owner p layer in
      if str_eq p "" || str_eq p "."
      then (some (invalid "path pattern"), o)
      else if owned_elsewhere layer (Map.get o.pattern_owner p)
      then (some (conflict "path pattern" p), o)
      else if has_wildcard p
      then (if clashes (path.matches p) layer o.literal_paths
            || clashes (wildcard_patterns_overlap path p) layer o.wildcard_patterns
          then (some (conflict "overlaps" p), o)
          else (
            none,
            record {
              pattern_owner = owners;
              literal_paths = o.literal_paths;
              wildcard_patterns = Map.put o.wildcard_patterns p layer;
            },
          ))
      else if clashes (λ existing. is_path_overlap existing p) layer o.literal_paths
          || clashes (λ existing. path.matches existing p) layer o.wildcard_patterns
      then (some (conflict "overlaps" p), o)
      else (
        none,
        record {
          pattern_owner = owners;
          literal_paths = Map.put o.literal_paths p layer;
          wildcard_patterns = o.wildcard_patterns;
        },
      )

  unfoldable pub claim_paths : String → Owners → List String → (Option Fault) × Owners
  unfolding claim_path
  claim_paths layer o [] = (none, o)
  claim_paths layer o (raw ∷ raws) =
      let step = claim_path layer o raw in
      let rest = claim_paths layer step.1 raws in if is_some step.0 then step else rest

  -- The loop over the layers, with the names seen so far.
  unfoldable pub check_layers : List String → Owners → List LayerEntry → Option Fault
  unfolding claim_paths contains
  check_layers names o [] = none
  check_layers names o (l ∷ ls) =
      let claimed = claim_paths l.name o l.paths in
      let rest = check_layers (l.name ∷ names) claimed.1 ls in
      if blank text l.name
      then some (empty_value "layer name")
      else if contains l.name names
      then some (duplicate "architecture layer name" l.name)
      else if is_empty l.paths
      then some (missing "path pattern")
      else or_else claimed.0 rest

  unfoldable pub validate_architecture : Architecture → Option Fault
  unfolding has_layer_rules check_layers check_rules
  validate_architecture arch =
      if not arch.enabled
      then none
      else if has_layer_rules text arch.rules && is_empty arch.layers
      then some (missing "layer")
      else or_else (check_layers [] no_owners arch.layers)
          (check_rules text (layer_names arch.layers) [] [] arch.rules)
