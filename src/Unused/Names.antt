-- ===== src/Unused/Names.antt =====
-- internal/engine/resolver/unused_imports.go and internal/engine/parser/extractor_common.go: the
-- name that an import binds, and the references that use a name.
use Prim.Native.String.{◌++◌, len, slice}
use text.Mathlib.Text.{starts_with, find?}
use code_watch.Prelude.{
  ◌-◌, String, Bool, true, false, not, ◌&&◌, ◌||◌, List, [], ◌∷◌, leb, is_some, if◌then◌else◌,
  str_eq, contains,
}
use code_watch.Model.{Import}

-- The standard library's functions that take a text apart.
pub record Splits : Type 0 where
  -- the last part of `strings.Split(s, sep)`, for the separator and the text
  pub last_part : String → String → String
  -- the text before `strings.LastIndex(s, ".")`, the text itself for -1
  pub without_extension : String → String

-- `strings.HasSuffix`
abbrev pub ends_with : String → String → Bool
ends_with s suffix =
    leb (len suffix) (len s) && str_eq (slice s (len s - len suffix) (len s)) suffix

-- `strings.Contains`
abbrev pub has_part : String → String → Bool
has_part s part = is_some (find? s part)

unfoldable pub module_reference_base : Splits → String → String → String
module_reference_base splits language name =
    if str_eq name ""
    then ""
    else if str_eq language "go"
    then (if ends_with name "go-tree-sitter"
        then "sitter"
        else if ends_with name "tree-sitter-go/bindings/go"
        then "tree_sitter_go"
        else if ends_with name "tree-sitter-python/bindings/go"
        then "tree_sitter_python"
        else splits.last_part "/" name)
    else if str_eq language "python"
    then splits.last_part "." name
    else if str_eq language "javascript" || (str_eq language "typescript" || str_eq language "tsx")
    then splits.without_extension (splits.last_part "/" name)
    else if str_eq language "java"
    then splits.last_part "." name
    else if str_eq language "rust"
    then splits.last_part "::" name
    else name

unfoldable pub import_reference_name : Splits → String → Import → String
unfolding module_reference_base
import_reference_name splits language imp =
    if not (str_eq imp.alias "")
    then imp.alias
    else if str_eq imp.module_name ""
    then ""
    else module_reference_base splits language imp.module_name

-- The tests of the loop over the references.
unfoldable pub mentions : String → String → Bool
mentions symbol ref =
    (starts_with ref (symbol ++ ".")
      || (starts_with ref (symbol ++ "(")
          || (starts_with ref (symbol ++ "().")
              || (starts_with ref ("*" ++ (symbol ++ "."))
                  || (starts_with ref ("&" ++ (symbol ++ "."))
                      || (starts_with ref ("[]" ++ (symbol ++ "."))
                          || starts_with ref ("map[" ++ (symbol ++ "."))))))))
    || ((has_part ref ("." ++ (symbol ++ "."))
          || (ends_with ref ("." ++ symbol) || str_eq ref symbol))
        || has_part ref (symbol ++ "."))

abbrev pub any_mentions : String → List String → Bool
any_mentions symbol [] = false
any_mentions symbol (ref ∷ refs) = mentions symbol ref || any_mentions symbol refs

unfoldable pub has_symbol_use : List String → String → Bool
unfolding mentions contains
has_symbol_use refs symbol =
    if str_eq symbol ""
    then true
    else if contains symbol refs
    then true
    else any_mentions symbol refs
