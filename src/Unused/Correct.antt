-- ===== src/Unused/Correct.antt =====
-- internal/engine/resolver/unused_imports.go: which imports and items are reported.
use mathlib.Core.List.{◌++◌}
use code_watch.Prelude.{
  String, Bool, true, false, not, ◌&&◌, ◌||◌, ◌≡◌, refl, ap, ◌∙◌, List, [], ◌∷◌, arith,
  if◌then◌else◌, str_eq, eq_iff, contains,
}
use code_watch.Model.{File, Import}
use code_watch.Config.Sections.{is_empty}
use code_watch.Unused.Names.{Splits, import_reference_name, has_symbol_use}
use code_watch.Unused.Spec.{languages}
use code_watch.Unused.Agreement.{finds, finds-is_unused}
use code_watch.Unused.Spec.{is_unused}
use code_watch.Unused.Scan.{unused_in_imports, find_unused_in_file}
use code_watch.Unused.{
  UnusedImport, supports_unused_import, is_likely_side_effect_only_import, reference_names,
  item_unused, unused_items, is_tracked, unused_in_import, unused_entry,
}

-- Whether a list reports an item of an import of this module under this alias; "" is the import.
abbrev pub reported : String → String → String → List UnusedImport → Bool
reported m alias item [] = false
reported m alias item (u ∷ us) =
    (str_eq u.module_name m && (str_eq u.alias alias && str_eq u.item item))
    || reported m alias item us

abbrev some_found : Splits → List String → File → String → String → String → List Import → Bool
some_found splits excluded f m alias item [] = false
some_found splits excluded f m alias item (imp ∷ imps) =
    ((str_eq imp.module_name m && str_eq imp.alias alias) && finds splits excluded f imp item)
    || some_found splits excluded f m alias item imps

-- An import of that module under that alias has the item to report.
abbrev pub some_import : Splits → List String → File → String → String → String → List Import → Bool
some_import splits excluded f m alias item [] = false
some_import splits excluded f m alias item (imp ∷ imps) =
    ((str_eq imp.module_name m && str_eq imp.alias alias)
      && is_unused splits excluded f.language (reference_names f.references) imp item)
    || some_import splits excluded f m alias item imps

some_found-some_import :
    (splits : Splits) (excluded : List String) (f : File) (m alias item : String)
    (imps : List Import)
    → some_found splits excluded f m alias item imps
      ≡ some_import splits excluded f m alias item imps
some_found-some_import splits excluded f m alias item [] = refl
some_found-some_import splits excluded f m alias item (imp ∷ imps) =
    ap
      (λ b.
        ((str_eq imp.module_name m && str_eq imp.alias alias) && b)
        || some_found splits excluded f m alias item imps)
      (finds-is_unused splits excluded f imp item)
    ∙ ap
        (λ b.
          ((str_eq imp.module_name m && str_eq imp.alias alias)
            && is_unused splits excluded f.language (reference_names f.references) imp item)
          || b)
        (some_found-some_import splits excluded f m alias item imps)

reported-append :
    (m alias item : String) (us vs : List UnusedImport)
    → reported m alias item (us ++ vs) ≡ (reported m alias item us || reported m alias item vs)
reported-append m alias item [] vs = refl
reported-append m alias item (u ∷ us) vs = ground (arith, reported-append m alias item us vs)

reported-if :
    (m alias item : String) (c : Bool) (u : UnusedImport) (us : List UnusedImport)
    → reported m alias item (if c then u ∷ us else us) ≡ (
        (c && (str_eq u.module_name m && (str_eq u.alias alias && str_eq u.item item)))
        || reported m alias item us)
reported-if m alias item true u us = refl
reported-if m alias item false u us = refl

joins :
    (here m_is a_is x_is is_x later there rest : Bool)
    → (x_is ≡ true → here ≡ there)
    → is_x ≡ x_is
    → rest ≡ ((m_is && a_is) && (later && there))
    → ((here && (m_is && (a_is && x_is))) || rest) ≡ ((m_is && a_is) && ((is_x || later) && there))
joins here m_is a_is x_is is_x later there rest h k e = ground (arith, h, k, e)

str_eq_sym : (s t : String) → str_eq s t ≡ str_eq t s
str_eq_sym s t = ground (arith, eq_iff s t, eq_iff t s)

nothing_here : (a b : Bool) → false ≡ (a && (false && b))
nothing_here a b = ground arith

reported-unused_items :
    (f : File) (refs : List String) (imp : Import) (name : String) (items : List String)
    (m alias item : String)
    → reported m alias item (unused_items f refs imp name items) ≡ (
        (str_eq imp.module_name m && str_eq imp.alias alias)
        && (contains item items && item_unused refs name item))
unfolding unused_items contains
reported-unused_items f refs imp name [] m alias item =
    nothing_here (str_eq imp.module_name m && str_eq imp.alias alias) (item_unused refs name item)
reported-unused_items f refs imp name (x ∷ xs) m alias item =
    reported-if m alias item (item_unused refs name x) (unused_entry f imp x "high")
      (unused_items f refs imp name xs)
    ∙ joins (item_unused refs name x) (str_eq imp.module_name m) (str_eq imp.alias alias)
        (str_eq x item) (str_eq item x) (contains item xs) (item_unused refs name item)
        (reported m alias item (unused_items f refs imp name xs))
        (λ e. ap (item_unused refs name) ((eq_iff x item).0 e)) (str_eq_sym item x)
        (reported-unused_items f refs imp name xs m alias item)

reported-choice :
    (m alias item : String) (tracked has_items effect used listed : Bool) (us : List UnusedImport)
    (u : UnusedImport)
    → reported m alias item us ≡ ((str_eq u.module_name m && str_eq u.alias alias) && listed)
    → str_eq u.item "" ≡ true
    → reported m alias item (
        if not tracked
        then []
        else if has_items
        then us
        else if effect
        then []
        else if not used
        then u ∷ []
        else [])
      ≡ ((str_eq u.module_name m && str_eq u.alias alias)
          && (tracked
              && (if has_items then listed else str_eq u.item item && (not effect && not used))))
reported-choice m alias item false has_items effect used listed us u h e = ground arith
reported-choice m alias item true true effect used listed us u h e = h
reported-choice m alias item true false true used listed us u h e = ground arith
reported-choice m alias item true false false true listed us u h e = ground arith
reported-choice m alias item true false false false listed us u h e = ground arith

reported-unused_in_import :
    (splits : Splits) (excluded : List String) (f : File) (imp : Import) (m alias item : String)
    → reported m alias item (unused_in_import splits excluded f (reference_names f.references) imp)
      ≡ ((str_eq imp.module_name m && str_eq imp.alias alias) && finds splits excluded f imp item)
unfolding unused_in_import
reported-unused_in_import splits excluded f imp m alias item =
    let refs = reference_names f.references in
    let name = import_reference_name splits f.language imp in
    reported-choice m alias item (is_tracked splits excluded f.language imp)
      (not (is_empty imp.items)) (is_likely_side_effect_only_import f.language imp)
      (has_symbol_use refs name) (contains item imp.items && item_unused refs name item)
      (unused_items f refs imp name imp.items) (unused_entry f imp "" "medium")
      (reported-unused_items f refs imp name imp.items m alias item) refl

reported-unused_in_imports :
    (splits : Splits) (excluded : List String) (f : File) (imps : List Import)
    (m alias item : String)
    → reported m alias item
        (unused_in_imports splits excluded f (reference_names f.references) imps)
      ≡ some_found splits excluded f m alias item imps
unfolding unused_in_imports
reported-unused_in_imports splits excluded f [] m alias item = refl
reported-unused_in_imports splits excluded f (imp ∷ imps) m alias item =
    let refs = reference_names f.references in
    reported-append m alias item (unused_in_import splits excluded f refs imp)
      (unused_in_imports splits excluded f refs imps)
    ∙ ap (λ b. b || reported m alias item (unused_in_imports splits excluded f refs imps))
        (reported-unused_in_import splits excluded f imp m alias item)
    ∙ ap
        (λ b.
          ((str_eq imp.module_name m && str_eq imp.alias alias) && finds splits excluded f imp item)
          || b)
        (reported-unused_in_imports splits excluded f imps m alias item)

only_if :
    (c : Bool) (m alias item : String) (us : List UnusedImport)
    → reported m alias item (if not c then [] else us) ≡ (c && reported m alias item us)
only_if true m alias item us = refl
only_if false m alias item us = refl

-- For a file of a language that is checked, an item is reported as unused exactly if an import of
-- that module under that alias binds a name, is not special to Go and not excluded by its module or
-- its name, and either it lists the item, which is not empty, and no reference uses the item or the
-- item behind the import's name; or it lists none, the item reported is "", it is not there for its
-- effect only, and no reference uses its name. For other languages nothing is reported.
pub reported-find_unused_in_file :
    (splits : Splits) (excluded : List String) (f : File) (m alias item : String)
    → reported m alias item (find_unused_in_file splits excluded f)
      ≡ (contains f.language languages && some_import splits excluded f m alias item f.imports)
unfolding find_unused_in_file contains
reported-find_unused_in_file splits excluded f m alias item =
    only_if (supports_unused_import f.language) m alias item
      (unused_in_imports splits excluded f (reference_names f.references) f.imports)
    ∙ ap (λ b. supports_unused_import f.language && b)
        (reported-unused_in_imports splits excluded f f.imports m alias item
          ∙ some_found-some_import splits excluded f m alias item f.imports)
