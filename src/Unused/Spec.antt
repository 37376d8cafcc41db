-- ===== src/Unused/Spec.antt =====
-- internal/engine/resolver/unused_imports.go: which imports are looked at, and which names are used.
use Prim.Native.String.{◌++◌}
use text.Mathlib.Text.{starts_with}
use code_watch.Prelude.{
  String, Bool, true, false, not, ◌&&◌, ◌||◌, ◌≡◌, refl, ap, ◌∙◌, List, [], ◌∷◌, arith,
  if◌then◌else◌, str_eq, eq_iff, contains,
}
use code_watch.Model.{Import}
use code_watch.Config.Sections.{is_empty}
use code_watch.Unused.Names.{
  Splits, ends_with, has_part, module_reference_base, import_reference_name, mentions, any_mentions,
  has_symbol_use,
}
use code_watch.Unused.{is_go_special, is_excluded_import}

-- The languages whose imports are checked.
abbrev pub languages : List String
languages = "go" ∷ "python" ∷ "javascript" ∷ "typescript" ∷ "tsx" ∷ "java" ∷ "rust" ∷ []

abbrev pub any_of : (String → Bool) → List String → Bool
any_of p [] = false
any_of p (x ∷ xs) = p x || any_of p xs

-- A reference that uses a name: the name itself or, by the text around it, one of its members, a
-- call of it, or a type of its own.
abbrev pub uses : String → String → Bool
uses name ref =
    str_eq name ref
    || (any_of (λ part. has_part ref part) (("." ++ (name ++ ".")) ∷ (name ++ ".") ∷ [])
        || (ends_with ref ("." ++ name)
            || any_of (λ start. starts_with ref start)
                ((name ++ ".")
                  ∷ (name ++ "(")
                  ∷ (name ++ "().")
                  ∷ ("*" ++ (name ++ "."))
                  ∷ ("&" ++ (name ++ "."))
                  ∷ ("[]" ++ (name ++ "."))
                  ∷ ("map[" ++ (name ++ "."))
                  ∷ [])))

-- An empty name counts as used.
abbrev pub is_used : List String → String → Bool
is_used refs name = str_eq name "" || any_of (uses name) refs

-- The alias, or the name that the last part of the module gives.
abbrev pub bound_name : Splits → String → Import → String
bound_name splits language imp =
    if str_eq imp.alias ""
    then (if str_eq imp.module_name ""
        then ""
        else module_reference_base splits language imp.module_name)
    else imp.alias

-- Imports of Go that bind no name, or every name.
abbrev pub is_special : String → Import → Bool
is_special language imp =
    str_eq language "go"
    && (contains imp.alias ("_" ∷ "." ∷ []) || contains imp.module_name ("C" ∷ "unsafe" ∷ []))

-- An import that binds a name, and is not excluded by its module or its name.
abbrev pub is_checked : List String → String → Import → String → Bool
is_checked excluded language imp name =
    not (is_special language imp)
    && (not (str_eq name "") && not (contains imp.module_name excluded || contains name excluded))

-- A module of JavaScript or TypeScript that is imported without a name.
abbrev pub for_effect : String → Import → Bool
for_effect language imp =
    is_empty imp.items
    && (str_eq imp.alias "" && contains language ("javascript" ∷ "typescript" ∷ "tsx" ∷ []))

-- Whether an import's item is to be reported, or, for an import without items, "".
abbrev pub is_unused : Splits → List String → String → List String → Import → String → Bool
is_unused splits excluded language refs imp item =
    let name = bound_name splits language imp in
    is_checked excluded language imp name
    && (if is_empty imp.items
        then str_eq "" item && (not (for_effect language imp) && not (is_used refs name))
        else contains item imp.items
          && not (str_eq item "" || (is_used refs item || is_used refs (name ++ ("." ++ item)))))

str_eq_sym : (s t : String) → str_eq s t ≡ str_eq t s
str_eq_sym s t = ground (arith, eq_iff s t, eq_iff t s)

regroup :
    (self whole a b c d e f g p s q : Bool)
    → whole ≡ self
    → ((a || (b || (c || (d || (e || (f || g)))))) || ((p || (s || whole)) || q)) ≡ (
        self
        || ((p || (q || false)) || (s || (a || (b || (c || (d || (e || (f || (g || false))))))))))
regroup self whole a b c d e f g p s q h = ground (arith, h)

mentions-uses : (name ref : String) → mentions name ref ≡ uses name ref
unfolding mentions
mentions-uses name ref =
    regroup (str_eq name ref) (str_eq ref name) (starts_with ref (name ++ "."))
      (starts_with ref (name ++ "(")) (starts_with ref (name ++ "()."))
      (starts_with ref ("*" ++ (name ++ "."))) (starts_with ref ("&" ++ (name ++ ".")))
      (starts_with ref ("[]" ++ (name ++ "."))) (starts_with ref ("map[" ++ (name ++ ".")))
      (has_part ref ("." ++ (name ++ "."))) (ends_with ref ("." ++ name))
      (has_part ref (name ++ ".")) (str_eq_sym ref name)

self_use : (name ref : String) → str_eq name ref ≡ true → uses name ref ≡ true
self_use name ref h = rw h refl

absorbed :
    (same_name later mentioned others : Bool)
    → (same_name ≡ true → mentioned ≡ true)
    → (later || others) ≡ others
    → ((same_name || later) || (mentioned || others)) ≡ (mentioned || others)
absorbed same_name later mentioned others k m = ground (arith, k, m)

listed-mentions :
    (name : String) (refs : List String)
    → (contains name refs || any_mentions name refs) ≡ any_mentions name refs
unfolding contains
listed-mentions name [] = refl
listed-mentions name (ref ∷ refs) =
    absorbed (str_eq name ref) (contains name refs) (mentions name ref) (any_mentions name refs)
      (λ h. mentions-uses name ref ∙ self_use name ref h) (listed-mentions name refs)

any_mentions-uses :
    (name : String) (refs : List String) → any_mentions name refs ≡ any_of (uses name) refs
any_mentions-uses name [] = refl
any_mentions-uses name (ref ∷ refs) =
    ap (λ b. b || any_mentions name refs) (mentions-uses name ref)
    ∙ ap (λ b. uses name ref || b) (any_mentions-uses name refs)

tests :
    (blank listed mentioned : Bool)
    → (if blank then true else if listed then true else mentioned)
      ≡ (blank || (listed || mentioned))
tests blank listed mentioned = ground arith

pub has_symbol_use_lem :
    (refs : List String) (name : String) → has_symbol_use refs name ≡ is_used refs name
unfolding has_symbol_use
has_symbol_use_lem refs name =
    tests (str_eq name "") (contains name refs) (any_mentions name refs)
    ∙ ap (λ b. str_eq name "" || b) (listed-mentions name refs ∙ any_mentions-uses name refs)

pub import_reference_name_lem :
    (splits : Splits) (language : String) (imp : Import)
    → import_reference_name splits language imp ≡ bound_name splits language imp
unfolding import_reference_name
import_reference_name_lem splits language imp = ground arith

pub is_go_special_lem :
    (language : String) (imp : Import) → is_go_special language imp ≡ is_special language imp
unfolding is_go_special contains
is_go_special_lem language imp = ground arith

pub is_excluded_import_lem :
    (excluded : List String) (m name : String)
    → is_excluded_import excluded m name ≡ (contains m excluded || contains name excluded)
unfolding is_excluded_import contains
is_excluded_import_lem [] m name = refl
is_excluded_import_lem (x ∷ xs) m name =
    ground (arith, str_eq_sym x m, str_eq_sym x name, is_excluded_import_lem xs m name)
