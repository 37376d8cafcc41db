-- ===== src/Tools/Allowlist.antt =====
-- internal/mcp/runtime/allowlist.go: the operations that a configuration allows.
use code_watch.Prelude.{
  String, Bool, true, false, not, ◌&&◌, ◌||◌, Option, none, some, List, [], ◌∷◌, if◌then◌else◌,
  str_eq, contains, arith, ◌≡◌, refl, ap, eq_iff, map,
}
use code_watch.Prelude.Map
use code_watch.Prelude.Map.{Map}
use code_watch.Prelude.Unique.{unique, unique_after-empty}
use code_watch.Text.{GoText, blank}
use code_watch.Config.Types.{Mcp, Fault, empty_value, conflict}
use code_watch.Config.Loops.{accepted, check_each-accepts, or_else}
use code_watch.Config.Sections.{is_empty}
use code_watch.Config.Mcp.{
  check_transport, check_bounds, check_allowlist, check_enabled, validate_mcp,
}

pub record OperationAllowlist : Type 0 where
  pub allow_all : Bool
  -- the keys of the map
  pub allowed : List String

-- The cases of `normalizeOperationAlias`.
unfoldable pub operation_aliases : Map String
operation_aliases =
    ("scan.run", "scan.run")
    ∷ ("scan_once", "scan.run")
    ∷ ("secrets.scan", "secrets.scan")
    ∷ ("secrets.list", "secrets.list")
    ∷ ("graph.cycles", "graph.cycles")
    ∷ ("detect_cycles", "graph.cycles")
    ∷ ("query.modules", "query.modules")
    ∷ ("query.module_details", "query.module_details")
    ∷ ("query.module-details", "query.module_details")
    ∷ ("query.trace", "query.trace")
    ∷ ("trace_import_chain", "query.trace")
    ∷ ("system.sync_outputs", "graph.sync_diagrams")
    ∷ ("generate_reports", "graph.sync_diagrams")
    ∷ ("graph.sync_diagrams", "graph.sync_diagrams")
    ∷ ("system.sync_config", "system.sync_config")
    ∷ ("system.generate_config", "system.generate_config")
    ∷ ("system.generate_script", "system.generate_script")
    ∷ ("system.select_project", "system.select_project")
    ∷ ("system.watch", "system.watch")
    ∷ ("query.trends", "query.trends")
    ∷ ("report.generate_markdown", "report.generate_markdown")
    ∷ []

abbrev pub or_empty : Option String → String
or_empty none = ""
or_empty (some s) = s

unfoldable pub allows : OperationAllowlist → String → Bool
unfolding contains
allows o id = if o.allow_all then true else contains id o.allowed

follows :
    (id first : String) (rest : List String) (b : Bool)
    → str_eq id "" ≡ false
    → contains id rest ≡ b
    → contains id (if str_eq first "" then rest else first ∷ rest) ≡ (str_eq id first || b)
unfolding contains
follows id first rest b h e = ground (arith, h, e, eq_iff id first, eq_iff first "")

last_two :
    (a b c d : Option Fault) → or_else a (or_else b (or_else c d)) ≡ none → (c ≡ none) × (d ≡ none)
last_two a b c d h = ground (arith, h)

either :
    (on s v b e : Bool) (f g h k : Fault)
    → on ≡ true
    → (if not on
        then none
        else if s
        then some f
        else if v
        then some g
        else if not b && not e
        then some h
        else if b && e
        then some k
        else none)
      ≡ none
    → e ≡ not b
either on s v b e f g h k o p = ground (arith, o, p)

allows_either :
    (b e n : Bool) (id : String) (ids : List String)
    → e ≡ not b
    → contains id ids ≡ n
    → allows
        (if not b || e
          then record { allow_all = true; allowed = [] }
          else record { allow_all = false; allowed = ids })
        id
      ≡ (not b || n)
unfolding allows
allows_either true e n id ids h k = rw h k
allows_either false e n id ids h k = refl

module _ (text : GoText) where
  unfoldable pub normalize_operation_alias : String → String
  unfolding operation_aliases
  normalize_operation_alias raw = or_empty (Map.get operation_aliases (text.lower (text.trim raw)))

  unfoldable pub allowed_operations : List String → List String
  unfolding normalize_operation_alias
  allowed_operations [] = []
  allowed_operations (entry ∷ entries) =
      let rest = allowed_operations entries in
      let id = normalize_operation_alias entry in if str_eq id "" then rest else id ∷ rest

  -- `none` is a nil configuration.
  unfoldable pub build_operation_allowlist : Option Mcp → OperationAllowlist
  unfolding allowed_operations
  build_operation_allowlist none = record { allow_all = true; allowed = [] }
  build_operation_allowlist (some mcp) =
      if not (blank text mcp.exposed_tool_name) || is_empty mcp.operation_allowlist
      then record { allow_all = true; allowed = [] }
      else record { allow_all = false; allowed = allowed_operations mcp.operation_allowlist }

  -- An entry of the list stands for the operation.
  abbrev pub names_operation : String → List String → Bool
  names_operation id [] = false
  names_operation id (entry ∷ entries) =
      str_eq id (normalize_operation_alias entry) || names_operation id entries

  contains-allowed_operations :
      (id : String) (entries : List String)
      → str_eq id "" ≡ false
      → contains id (allowed_operations entries) ≡ names_operation id entries
  unfolding contains allowed_operations
  contains-allowed_operations id [] h = refl
  contains-allowed_operations id (entry ∷ entries) h =
      follows id (normalize_operation_alias entry) (allowed_operations entries)
        (names_operation id entries) h (contains-allowed_operations id entries h)

  one_of_two :
      (mcp : Mcp)
      → mcp.enabled ≡ true
      → check_enabled text mcp ≡ none
      → is_empty mcp.operation_allowlist ≡ not (blank text mcp.exposed_tool_name)
  unfolding check_enabled
  one_of_two mcp on h =
      either mcp.enabled (blank text mcp.server_name) (blank text mcp.server_version)
        (blank text mcp.exposed_tool_name) (is_empty mcp.operation_allowlist)
        (empty_value "mcp.server_name") (empty_value "mcp.server_version")
        (conflict "mcp.exposed_tool_name" "mcp.operation_allowlist")
        (empty_value "mcp.operation_allowlist") on h

  check_allowlist-unique :
      (ops : List String)
      → check_allowlist text ops ≡ none
      → unique (map (λ op. text.lower (text.trim op)) ops) ≡ true
  unfolding check_allowlist
  check_allowlist-unique ops h =
      let keys = map (λ op. text.lower (text.trim op)) ops in
      ground (
        arith,
        ap accepted h,
        check_each-accepts (blank text) (λ op. text.lower (text.trim op))
            (empty_value "mcp.operation_allowlist") "mcp.operation_allowlist" [] ops,
        unique_after-empty keys,
      )

  -- A tool server that is enabled in an accepted configuration allows an operation exactly where
  -- the configuration exposes a single tool, or where one of the listed entries, of which there is
  -- one at least, stands for that operation: an accepted list never allows all by being empty. No
  -- two entries of the list are the same text up to case and surrounding space.
  pub allows-validate_mcp :
      (mcp : Mcp) (id : String)
      → mcp.enabled ≡ true
      → validate_mcp text mcp ≡ none
      → str_eq id "" ≡ false
      → (allows (build_operation_allowlist (some mcp)) id
          ≡ (not (blank text mcp.exposed_tool_name) || names_operation id mcp.operation_allowlist))
        × (is_empty mcp.operation_allowlist ≡ not (blank text mcp.exposed_tool_name))
        × (unique (map (λ op. text.lower (text.trim op)) mcp.operation_allowlist) ≡ true)
  unfolding validate_mcp build_operation_allowlist
  allows-validate_mcp mcp id on h named =
      let (distinct, enabled) =
        last_two (check_transport text mcp) (check_bounds text mcp)
          (check_allowlist text mcp.operation_allowlist) (check_enabled text mcp) h in
      let one = one_of_two mcp on enabled in
      (
        allows_either (blank text mcp.exposed_tool_name) (is_empty mcp.operation_allowlist)
            (names_operation id mcp.operation_allowlist) id
            (allowed_operations mcp.operation_allowlist) one
            (contains-allowed_operations id mcp.operation_allowlist named),
        one,
        check_allowlist-unique mcp.operation_allowlist distinct,
      )
