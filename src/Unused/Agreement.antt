-- ===== src/Unused/Agreement.antt =====
-- internal/engine/resolver/unused_imports.go: the tests of the loop are those of Unused/Spec.
use code_watch.Prelude.{
  String, Bool, not, ◌&&◌, ◌||◌, ◌≡◌, ap, ◌∙◌, List, arith, if◌then◌else◌, str_eq, contains,
}
use code_watch.Model.{File, Import}
use code_watch.Config.Sections.{is_empty}
use code_watch.Unused.Names.{Splits, import_reference_name, has_symbol_use}
use Prim.Native.String.{◌++◌}
use code_watch.Unused.Spec.{
  is_unused, is_checked, is_special, is_used, bound_name, for_effect, has_symbol_use_lem,
  import_reference_name_lem, is_go_special_lem, is_excluded_import_lem,
}
use code_watch.Unused.{
  is_likely_side_effect_only_import, reference_names, item_unused, is_go_special,
  is_excluded_import, is_tracked,
}

in_parts :
    (go_special special blank excluded_code excluded : Bool)
    → go_special ≡ special
    → excluded_code ≡ excluded
    → (not go_special && (not blank && not excluded_code))
      ≡ (not special && (not blank && not excluded))
in_parts go_special special blank excluded_code excluded h k = ground (arith, h, k)

no_use :
    (blank code_plain plain code_member member : Bool)
    → code_plain ≡ plain
    → code_member ≡ member
    → (not blank && (not code_plain && not code_member)) ≡ not (blank || (plain || member))
no_use blank code_plain plain code_member member h k = ground (arith, h, k)

either_kind :
    (tracked checked empty listed code_free free whole code_effect effect code_used used : Bool)
    → tracked ≡ checked
    → code_free ≡ free
    → code_effect ≡ effect
    → code_used ≡ used
    → (tracked
        && (if not empty then listed && code_free else whole && (not code_effect && not code_used)))
      ≡ (checked && (if empty then whole && (not effect && not used) else listed && free))
either_kind tracked checked empty listed code_free free whole code_effect effect code_used used a b
      c d =
    ground (arith, a, b, c, d)

-- What the loop finds of an import: an item that is not used, or the import itself where it has no
-- items, is not likely to be there for its effect and its name is not used.
abbrev pub finds : Splits → List String → File → Import → String → Bool
finds splits excluded f imp item =
    let refs = reference_names f.references in
    let name = import_reference_name splits f.language imp in
    is_tracked splits excluded f.language imp
    && (if not (is_empty imp.items)
        then contains item imp.items && item_unused refs name item
        else str_eq "" item
          && (not (is_likely_side_effect_only_import f.language imp)
              && not (has_symbol_use refs name)))

looked_at :
    (splits : Splits) (excluded : List String) (language : String) (imp : Import)
    → is_tracked splits excluded language imp
      ≡ is_checked excluded language imp (bound_name splits language imp)
unfolding is_tracked
looked_at splits excluded language imp =
    let name = import_reference_name splits language imp in
    in_parts (is_go_special language imp) (is_special language imp) (str_eq name "")
      (is_excluded_import excluded imp.module_name name)
      (contains imp.module_name excluded || contains name excluded) (is_go_special_lem language imp)
      (is_excluded_import_lem excluded imp.module_name name)
    ∙ ap (is_checked excluded language imp) (import_reference_name_lem splits language imp)

for_effect_lem :
    (language : String) (imp : Import)
    → is_likely_side_effect_only_import language imp ≡ for_effect language imp
unfolding is_likely_side_effect_only_import contains
for_effect_lem language imp = ground arith

item_unused_lem :
    (refs : List String) (name item : String)
    → item_unused refs name item
      ≡ not (str_eq item "" || (is_used refs item || is_used refs (name ++ ("." ++ item))))
item_unused_lem refs name item =
    no_use (str_eq item "") (has_symbol_use refs item) (is_used refs item)
      (has_symbol_use refs (name ++ ("." ++ item))) (is_used refs (name ++ ("." ++ item)))
      (has_symbol_use_lem refs item) (has_symbol_use_lem refs (name ++ ("." ++ item)))

pub finds-is_unused :
    (splits : Splits) (excluded : List String) (f : File) (imp : Import) (item : String)
    → finds splits excluded f imp item
      ≡ is_unused splits excluded f.language (reference_names f.references) imp item
finds-is_unused splits excluded f imp item =
    let refs = reference_names f.references in
    let code_name = import_reference_name splits f.language imp in
    let name = bound_name splits f.language imp in
    let same = import_reference_name_lem splits f.language imp in
    either_kind (is_tracked splits excluded f.language imp)
      (is_checked excluded f.language imp name) (is_empty imp.items) (contains item imp.items)
      (item_unused refs code_name item)
      (not (str_eq item "" || (is_used refs item || is_used refs (name ++ ("." ++ item)))))
      (str_eq "" item) (is_likely_side_effect_only_import f.language imp)
      (for_effect f.language imp) (has_symbol_use refs code_name) (is_used refs name)
      (looked_at splits excluded f.language imp)
      (item_unused_lem refs code_name item
        ∙ ap (λ n. not (str_eq item "" || (is_used refs item || is_used refs (n ++ ("." ++ item)))))
            same)
      (for_effect_lem f.language imp) (has_symbol_use_lem refs code_name ∙ ap (is_used refs) same)
