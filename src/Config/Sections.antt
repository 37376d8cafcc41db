-- ===== src/Config/Sections.antt =====
-- internal/core/config/validator.go: the checks of the sections that have no loops, or one.
use code_watch.Prelude.{
  String, Bool, true, false, not, ◌&&◌, ◌||◌, Option, none, some, List, [], ◌∷◌, if◌then◌else◌,
  str_eq, contains,
}
use code_watch.Prelude.Int.{ℤ, pos, lessℤ}
use code_watch.Prelude.Map.{Map}
use code_watch.Text.{GoText, blank}
use code_watch.Config.Types.{
  Database, Language, DynamicGrammar, SecretsConfig, SecretPattern, BridgeScoring, WriteQueue,
  Fault, empty_value, out_of_range, not_one_of, duplicate, missing, invalid,
}

abbrev pub is_empty {ℓ} : {A : Type ℓ} → List A → Bool
is_empty [] = true
is_empty (x ∷ xs) = false

unfoldable pub validate_version : ℤ → Option Fault
validate_version v =
    if lessℤ v (pos 1)
    then some (out_of_range "version")
    else if lessℤ (pos 2) v
    then some (not_one_of "version")
    else none

unfoldable pub validate_resolver : BridgeScoring → Option Fault
validate_resolver s =
    if lessℤ s.confirmed_threshold (pos 1)
    then some (out_of_range "confirmed_threshold")
    else if lessℤ s.probable_threshold (pos 1)
    then some (out_of_range "probable_threshold")
    else if lessℤ s.confirmed_threshold s.probable_threshold
    then some (out_of_range "probable_threshold")
    else none

abbrev pub persistent_queue_enabled : WriteQueue → Bool
persistent_queue_enabled q = elim q.persistent_enabled [ none ↦ true | some b ↦ b ]

module _ (text : GoText) where
  unfoldable pub validate_database : Database → Option Fault
  validate_database db =
      let mode = text.lower (text.trim db.project_mode) in
      if not (str_eq (text.lower (text.trim db.driver)) "sqlite")
      then some (not_one_of "db.driver")
      else if blank text db.path
      then some (empty_value "db.path")
      else if not (str_eq mode "single") && not (str_eq mode "multi")
      then some (not_one_of "db.project_mode")
      else none

  unfoldable pub validate_write_queue : WriteQueue → Option Fault
  validate_write_queue q =
      if lessℤ q.memory_capacity (pos 1)
      then some (out_of_range "memory_capacity")
      else if lessℤ q.batch_size (pos 1)
      then some (out_of_range "batch_size")
      else if lessℤ q.flush_interval (pos 10000000)
      then some (out_of_range "flush_interval")
      else if lessℤ q.shutdown_drain_timeout (pos 1000000000)
      then some (out_of_range "shutdown_drain_timeout")
      else if lessℤ q.retry_base_delay (pos 10000000)
      then some (out_of_range "retry_base_delay")
      else if lessℤ q.retry_max_delay q.retry_base_delay
      then some (out_of_range "retry_max_delay")
      else if persistent_queue_enabled q && blank text q.spool_path
      then some (empty_value "spool_path")
      else none

  abbrev pub any_blank : List String → Bool
  any_blank [] = false
  any_blank (s ∷ ss) = blank text s || any_blank ss

  -- The entries in the map's order.
  unfoldable pub validate_languages : Map Language → Option Fault
  validate_languages [] = none
  validate_languages ((language, settings) ∷ rest) =
      let others = validate_languages rest in
      if blank text language
      then some (empty_value "languages")
      else if any_blank settings.extensions
      then some (empty_value "extensions")
      else if any_blank settings.filenames
      then some (empty_value "filenames")
      else others

  -- The loop with the names seen so far.
  unfoldable pub validate_grammars : List String → List DynamicGrammar → Option Fault
  unfolding contains
  validate_grammars seen [] = none
  validate_grammars seen (dg ∷ dgs) =
      let name = text.trim dg.name in
      let rest = validate_grammars (name ∷ seen) dgs in
      if str_eq name ""
      then some (empty_value "name")
      else if contains name seen
      then some (duplicate "dynamic grammar name" name)
      else if blank text dg.library
      then some (empty_value "library")
      else if is_empty dg.extensions && is_empty dg.filenames
      then some (missing "extension or filename")
      else if str_eq dg.namespace_node ""
      then some (empty_value "namespace_node")
      else if str_eq dg.import_node ""
      then some (empty_value "import_node")
      else if is_empty dg.definition_nodes
      then some (empty_value "definition_nodes")
      else rest

  -- `compiles` is the regular expression library's verdict on an expression.
  unfoldable pub validate_patterns :
      (String → Bool) → List String → List SecretPattern → Option Fault
  unfolding contains
  validate_patterns compiles seen [] = none
  validate_patterns compiles seen (p ∷ ps) =
      let name = text.trim p.name in
      let expr = text.trim p.regex in
      let rest = validate_patterns compiles (name ∷ seen) ps in
      if str_eq name ""
      then some (empty_value "name")
      else if contains name seen
      then some (duplicate "secret pattern name" name)
      else if str_eq expr ""
      then some (empty_value "regex")
      else if compiles expr
      then rest
      else some (invalid "regex")

  unfoldable pub validate_secrets : (String → Bool) → SecretsConfig → Option Fault
  unfolding validate_patterns
  validate_secrets compiles s =
      if s.threshold_below_one || s.threshold_above_eight
      then some (out_of_range "entropy_threshold")
      else if lessℤ s.min_token_length (pos 8) || lessℤ (pos 256) s.min_token_length
      then some (out_of_range "min_token_length")
      else validate_patterns compiles [] s.patterns
