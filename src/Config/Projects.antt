-- ===== src/Config/Projects.antt =====
-- internal/core/config/validator.go: the projects a configuration names.
use code_watch.Prelude.{
  String, Bool, not, ◌&&◌, ◌||◌, Option, none, some, List, [], ◌∷◌, map, if◌then◌else◌, str_eq,
  contains, arith, ◌≡◌, refl, ap,
}
use code_watch.Prelude.Unique.{unique, unique_after, unique_after-empty, all}
use code_watch.Text.{GoText, blank}
use code_watch.Config.Types.{
  ProjectEntry, Projects, Fault, empty_value, duplicate, unknown, conflict,
}
use code_watch.Config.Loops.{accepted, accepted-if, accepted-if_last, or_else, accepted-or_else}

de_morgan : (a b : Bool) → not (not a && not b) ≡ (a || b)
de_morgan a b = ground arith

gather :
    (a b c d e A U V : Bool)
    → (not a && (not b && (not c && (not d && (not e && (A && (U && V)))))))
      ≡ (((not a && (not b && not c)) && A) && ((not d && U) && (not e && V)))
gather a b c d e A U V = ground arith

module _ (text : GoText) where
  -- The loop with the names and namespaces seen so far.
  unfoldable pub check_entries : List String → List String → List ProjectEntry → Option Fault
  unfolding contains
  check_entries names namespaces [] = none
  check_entries names namespaces (e ∷ es) =
      let name = text.trim e.name in
      let namespace = text.trim e.db_namespace in
      let rest = check_entries (name ∷ names) (namespace ∷ namespaces) es in
      if str_eq name ""
      then some (empty_value "name")
      else if blank text e.root
      then some (empty_value "root")
      else if str_eq namespace ""
      then some (empty_value "db_namespace")
      else if contains name names
      then some (duplicate "project name" name)
      else if contains namespace namespaces
      then some (duplicate "project db_namespace" namespace)
      else rest

  abbrev pub project_names : List ProjectEntry → List String
  project_names es = map (λ e. text.trim e.name) es

  abbrev pub project_namespaces : List ProjectEntry → List String
  project_namespaces es = map (λ e. text.trim e.db_namespace) es

  -- Without entries there is nothing that `active` could name.
  unfoldable pub validate_entries : String → List ProjectEntry → Option Fault
  unfolding check_entries contains
  validate_entries active [] =
      if not (str_eq active "") then some (conflict "projects.active" "projects.entries") else none
  validate_entries active (e ∷ es) = or_else (check_entries [] [] (e ∷ es)) (
      if not (str_eq active "") && not (contains active (project_names (e ∷ es)))
      then some (unknown "project" active)
      else none)

  unfoldable pub validate_projects : Projects → Option Fault
  unfolding validate_entries
  validate_projects p = validate_entries (text.trim p.active) p.entries

  -- An entry with a name, a root and a namespace.
  abbrev pub complete : ProjectEntry → Bool
  complete e =
      not (blank text e.name) && (not (blank text e.root) && not (blank text e.db_namespace))

  check_entries-accepts :
      (names namespaces : List String) (es : List ProjectEntry)
      → accepted (check_entries names namespaces es) ≡ (
          all complete es
          && (unique_after names (project_names es)
              && unique_after namespaces (project_namespaces es)))
  unfolding check_entries contains
  check_entries-accepts names namespaces [] = refl
  check_entries-accepts names namespaces (e ∷ es) =
      let name = text.trim e.name in
      let namespace = text.trim e.db_namespace in
      simp (accepted-if, check_entries-accepts (name ∷ names) (namespace ∷ namespaces) es)
        (gather (blank text e.name) (blank text e.root) (blank text e.db_namespace)
          (contains name names) (contains namespace namespaces) (all complete es)
          (unique_after (name ∷ names) (project_names es))
          (unique_after (namespace ∷ namespaces) (project_namespaces es)))

  validate_entries-accepts :
      (active : String) (es : List ProjectEntry)
      → accepted (validate_entries active es) ≡ (
          (all complete es && (unique (project_names es) && unique (project_namespaces es)))
          && (str_eq active "" || contains active (project_names es)))
  unfolding validate_entries contains unique
  validate_entries-accepts active [] = simp accepted-if_last (ground arith)
  validate_entries-accepts active (e ∷ es) =
      simp
        (
          accepted-or_else,
          accepted-if_last,
          check_entries-accepts [] [] (e ∷ es),
          unique_after-empty (project_names (e ∷ es)),
          unique_after-empty (project_namespaces (e ∷ es)),
        )
        (ap
          (λ b.
            (all complete (e ∷ es)
              && (unique (project_names (e ∷ es)) && unique (project_namespaces (e ∷ es))))
            && b)
          (de_morgan (str_eq active "") (contains active (project_names (e ∷ es)))))

  -- The check of the projects accepts exactly the sections in which every entry has a name, a
  -- root and a namespace that are not blank, no two names and no two namespaces are the same text
  -- once trimmed, and the active project is blank or the trimmed name of an entry.
  pub validate_projects-accepts :
      (p : Projects)
      → accepted (validate_projects p) ≡ (
          (all complete p.entries
            && (unique (project_names p.entries) && unique (project_namespaces p.entries)))
          && (blank text p.active || contains (text.trim p.active) (project_names p.entries)))
  unfolding validate_projects
  validate_projects-accepts p = validate_entries-accepts (text.trim p.active) p.entries
