-- ===== src/Unused.antt =====
-- internal/engine/resolver/unused_imports.go: the imports that no reference uses.
pub mod Names
pub mod Scan
pub mod Spec
pub mod Agreement
pub mod Correct
pub mod Examples
use Prim.Native.String.{◌++◌}
use code_watch.Prelude.{
  String, Bool, true, false, not, ◌&&◌, ◌||◌, Option, none, some, List, [], ◌∷◌, map, if◌then◌else◌,
  str_eq, contains,
}
use code_watch.Model.{File, Import, Location, Reference}
use code_watch.Config.Sections.{is_empty}
use code_watch.Unused.Names.{Splits, import_reference_name, has_symbol_use}

pub record UnusedImport : Type 0 where
  pub file : String
  pub language : String
  pub module_name : String
  pub alias : String
  pub item : String
  pub location : Location
  pub confidence : String

abbrev pub supports_unused_import : String → Bool
unfolding contains
supports_unused_import language =
    contains language ("go" ∷ "python" ∷ "javascript" ∷ "typescript" ∷ "tsx" ∷ "java" ∷ "rust" ∷ [])

-- `isLikelySideEffectOnlyImport`
unfoldable pub is_likely_side_effect_only_import : String → Import → Bool
unfolding contains
is_likely_side_effect_only_import language imp =
    if not (is_empty imp.items) || not (str_eq imp.alias "")
    then false
    else contains language ("javascript" ∷ "typescript" ∷ "tsx" ∷ [])

unfoldable pub is_excluded_import : List String → String → String → Bool
is_excluded_import [] name ref_name = false
is_excluded_import (excluded ∷ rest) name ref_name =
    (str_eq excluded name || str_eq excluded ref_name) || is_excluded_import rest name ref_name

-- The three tests for imports of Go that no reference can name.
unfoldable pub is_go_special : String → Import → Bool
is_go_special language imp =
    str_eq language "go"
    && ((str_eq imp.alias "_" || str_eq imp.alias ".")
        || (str_eq imp.module_name "C" || str_eq imp.module_name "unsafe"))

-- `refHits` by its keys: a count is above 0 exactly for these.
abbrev pub reference_names : List Reference → List String
reference_names refs = map (λ r. r.name) refs

abbrev pub unused_entry : File → Import → String → String → UnusedImport
unused_entry f imp item confidence = record {
  file = f.path;
  language = f.language;
  module_name = imp.module_name;
  alias = imp.alias;
  item = item;
  location = imp.location;
  confidence = confidence;
}

-- Neither the item nor the item behind the module's name is used.
abbrev pub item_unused : List String → String → String → Bool
item_unused refs name item =
    not (str_eq item "")
    && (not (has_symbol_use refs item) && not (has_symbol_use refs (name ++ ("." ++ item))))

-- The loop over the items of an import.
unfoldable pub unused_items : File → List String → Import → String → List String → List UnusedImport
unfolding has_symbol_use
unused_items f refs imp name [] = []
unused_items f refs imp name (item ∷ items) =
    let rest = unused_items f refs imp name items in
    if item_unused refs name item then unused_entry f imp item "high" ∷ rest else rest

-- Whether the loop looks at an import at all.
unfoldable pub is_tracked : Splits → List String → String → Import → Bool
unfolding is_go_special is_excluded_import import_reference_name
is_tracked splits excluded language imp =
    let name = import_reference_name splits language imp in
    not (is_go_special language imp)
    && (not (str_eq name "") && not (is_excluded_import excluded imp.module_name name))

-- The body of the loop over the imports.
unfoldable pub unused_in_import :
    Splits → List String → File → List String → Import → List UnusedImport
unfolding is_tracked unused_items is_likely_side_effect_only_import has_symbol_use
    import_reference_name
unused_in_import splits excluded f refs imp =
    let name = import_reference_name splits f.language imp in
    if not (is_tracked splits excluded f.language imp)
    then []
    else if not (is_empty imp.items)
    then unused_items f refs imp name imp.items
    else if is_likely_side_effect_only_import f.language imp
    then []
    else if not (has_symbol_use refs name)
    then unused_entry f imp "" "medium" ∷ []
    else []
