-- ===== src/Tools/Args.antt =====
-- internal/mcp/validate/args.go and internal/mcp/contracts: the arguments of the operations.
pub mod Accepted
use Prim.Native.String.{len}
use code_watch.Prelude.{
  ℕ, String, Bool, true, false, not, ◌&&◌, ◌||◌, Option, none, some, List, [], ◌∷◌, length,
  if◌then◌else◌, ltb, str_eq, ◌⊎◌, inl, inr,
}
use code_watch.Prelude.Int.{ℤ, pos, lessℤ}
use code_watch.Prelude.Map
use code_watch.Prelude.Map.{Map}
use code_watch.Text.{GoText, GoPath, blank}
use code_watch.Layers.Paths.{PathText}
use code_watch.Tools.Texts.{normalize_formats}
use code_watch.Tools.Paths.{ToolError, refuse, sanitize_paths}

-- `contracts.ScanRunInput`
pub record ScanRunInput : Type 0 where
  pub paths : List String
  pub config_path : String
  pub project_root : String

-- `contracts.QueryModulesInput`
pub record QueryModulesInput : Type 0 where
  pub filter : String
  pub limit : ℤ

-- `contracts.QueryTraceInput`
pub record QueryTraceInput : Type 0 where
  pub from : String
  pub to : String
  pub max_depth : ℤ

-- `contracts.QueryTrendsInput`
pub record QueryTrendsInput : Type 0 where
  pub since : String
  pub limit : ℤ

-- `contracts.ReportGenerateMarkdownInput`
pub record ReportInput : Type 0 where
  pub write_file : Bool
  pub path : String
  pub verbosity : String

-- The input of an operation; those without parameters have none.
pub data ToolInput : Type 0 where
  scan_run : ScanRunInput → ToolInput
  secrets_scan : List String → ToolInput
  secrets_list : ℤ → ToolInput
  graph_cycles : ℤ → ToolInput
  graph_sync_diagrams : List String → ToolInput
  query_modules : QueryModulesInput → ToolInput
  query_module_details : String → ToolInput
  query_trace : QueryTraceInput → ToolInput
  system_sync_config : ToolInput
  system_generate_config : ToolInput
  system_generate_script : ToolInput
  system_select_project : String → ToolInput
  query_trends : QueryTrendsInput → ToolInput
  system_watch : ToolInput
  report_generate_markdown : ReportInput → ToolInput

-- `decodeParams`, which encodes and decodes by the JSON library, for each type of input.
pub record Decoder (P : Type 0) : Type 0 where
  -- `map[string]any{}`
  pub no_params : P
  pub scan : P → ToolError ⊎ ScanRunInput
  pub texts : P → ToolError ⊎ List String
  pub limit : P → ToolError ⊎ ℤ
  pub modules : P → ToolError ⊎ QueryModulesInput
  pub text : P → ToolError ⊎ String
  pub trace : P → ToolError ⊎ QueryTraceInput
  pub trends : P → ToolError ⊎ QueryTrendsInput
  pub nothing : P → ToolError ⊎ Unit {0}
  pub report : P → ToolError ⊎ ReportInput

-- The value at `params` in the arguments.
pub data RawParams (P : Type 0) : Type 0 where
  absent : RawParams P
  not_an_object : RawParams P
  object : P → RawParams P

-- The arguments of a call; `operation` is `none` where it is no text.
pub record RawArgs (P : Type 0) : Type 0 where
  pub operation : Option String
  pub params : RawParams P

abbrev pub max_limit_value : ℤ
max_limit_value = pos 5000

abbrev pub max_trace_depth : ℤ
max_trace_depth = pos 100

abbrev pub max_format_count : ℕ
max_format_count = 8

abbrev pub max_filter_length : ℕ
max_filter_length = 200

-- `input.Limit < 0 || input.Limit > most`
abbrev pub out_of : ℤ → ℤ → Bool
out_of most limit = lessℤ limit (pos 0) || lessℤ most limit

-- The error if there is one, else what follows.
abbrev pub bind {ℓ κ} :
    {A : Type ℓ} {B : Type κ} → ToolError ⊎ A → (A → ToolError ⊎ B) → ToolError ⊎ B
bind (inl e) f = inl e
bind (inr a) f = f a

-- The error where the test holds, else the input.
abbrev pub unless : Bool → String → ToolInput → ToolError ⊎ ToolInput
unless b message input = if b then inl (refuse message) else inr input

abbrev pub allowed_verbosity : String → Bool
allowed_verbosity v = str_eq v "summary" || (str_eq v "standard" || str_eq v "detailed")

-- `GetOperationWeight`
unfoldable pub get_operation_weight : String → Map ℕ → ℕ
get_operation_weight operation weights = elim (Map.get weights operation) [ none ↦ 1 | some w ↦ w ]

module _ (text : GoText) (path : GoPath) (globs : PathText) {P : Type 0} (decode : Decoder P) where
  unfoldable pub parse_scan : P → String → ToolError ⊎ ToolInput
  unfolding sanitize_paths
  parse_scan params root = bind (decode.scan params) (λ input.
      bind (sanitize_paths text path globs input.paths root) (λ paths. inr (
        scan_run (record {
          paths = paths;
          config_path = input.config_path;
          project_root = input.project_root;
        }))))

  unfoldable pub parse_secrets_scan : P → String → ToolError ⊎ ToolInput
  unfolding sanitize_paths
  parse_secrets_scan params root = bind (decode.texts params) (λ paths.
      bind (sanitize_paths text path globs paths root) (λ clean. inr (secrets_scan clean)))

  unfoldable pub parse_limit : (ℤ → ToolInput) → P → ToolError ⊎ ToolInput
  parse_limit input params =
      bind (decode.limit params)
        (λ limit. unless (out_of max_limit_value limit) "limit is out of range" (input limit))

  unfoldable pub parse_formats : P → ToolError ⊎ ToolInput
  unfolding normalize_formats
  parse_formats params = bind (decode.texts params) (λ formats.
      let normal = normalize_formats text [] formats in
      unless (ltb max_format_count (length normal)) "too many formats requested"
        (graph_sync_diagrams normal))

  unfoldable pub parse_modules : P → ToolError ⊎ ToolInput
  parse_modules params = bind (decode.modules params) (λ input.
      let filter = text.trim input.filter in
      if ltb max_filter_length (len filter)
      then inl (refuse "filter is too long")
      else unless (out_of max_limit_value input.limit) "limit is out of range"
          (query_modules (record { filter = filter; limit = input.limit })))

  -- The two operations of which a name is required.
  unfoldable pub parse_name : (String → ToolInput) → String → P → ToolError ⊎ ToolInput
  parse_name input message params =
      bind (decode.text params)
        (λ raw. let name = text.trim raw in unless (str_eq name "") message (input name))

  unfoldable pub parse_trace : P → ToolError ⊎ ToolInput
  parse_trace params = bind (decode.trace params) (λ input.
      let from = text.trim input.from in
      let to = text.trim input.to in
      if str_eq from "" || str_eq to ""
      then inl (refuse "from_module and to_module are required")
      else unless (out_of max_trace_depth input.max_depth) "max_depth is out of range"
          (query_trace (record { from = from; to = to; max_depth = input.max_depth })))

  unfoldable pub parse_trends : P → ToolError ⊎ ToolInput
  parse_trends params = bind (decode.trends params) (λ input.
      unless (out_of max_limit_value input.limit) "limit is out of range"
        (query_trends (record { since = text.trim input.since; limit = input.limit })))

  unfoldable pub parse_nothing : ToolInput → P → ToolError ⊎ ToolInput
  parse_nothing input params = bind (decode.nothing params) (λ u. inr input)

  unfoldable pub parse_report : P → ToolError ⊎ ToolInput
  parse_report params = bind (decode.report params) (λ input.
      let verbosity = text.lower (text.trim input.verbosity) in
      unless (not (str_eq verbosity "") && not (allowed_verbosity verbosity))
        "verbosity must be one of: summary, standard, detailed"
        (report_generate_markdown (record {
          write_file = input.write_file;
          path = text.trim input.path;
          verbosity = verbosity;
        })))

  -- The cases of the switch; the one of `OperationSystemSyncOut` is never met.
  unfoldable pub parsers : String → Map (P → ToolError ⊎ ToolInput)
  unfolding parse_scan parse_secrets_scan parse_limit parse_formats parse_modules parse_name
      parse_trace parse_trends parse_nothing parse_report
  parsers root =
      ("scan.run", λ params. parse_scan params root)
      ∷ ("secrets.scan", λ params. parse_secrets_scan params root)
      ∷ ("secrets.list", parse_limit secrets_list)
      ∷ ("graph.cycles", parse_limit graph_cycles)
      ∷ ("graph.sync_diagrams", parse_formats)
      ∷ ("query.modules", parse_modules)
      ∷ ("query.module_details", parse_name query_module_details "module is required")
      ∷ ("query.trace", parse_trace)
      ∷ ("system.sync_outputs", parse_formats)
      ∷ ("system.sync_config", parse_nothing system_sync_config)
      ∷ ("system.generate_config", parse_nothing system_generate_config)
      ∷ ("system.generate_script", parse_nothing system_generate_script)
      ∷ ("system.select_project", parse_name system_select_project "name is required")
      ∷ ("query.trends", parse_trends)
      ∷ ("system.watch", parse_nothing system_watch)
      ∷ ("report.generate_markdown", parse_report)
      ∷ []

  -- The operation that a name in the arguments stands for.
  abbrev pub operation_named : String → String
  operation_named raw =
      if str_eq (text.trim raw) "system.sync_outputs" then "graph.sync_diagrams" else text.trim raw

  abbrev pub params_of : RawParams P → ToolError ⊎ P
  params_of absent = inr decode.no_params
  params_of not_an_object = inl (refuse "params must be an object")
  params_of (object p) = inr p

  unfoldable pub run_parser :
      Option (P → ToolError ⊎ ToolInput) → String → P → ToolError ⊎ (String × ToolInput)
  run_parser none operation params = inl (refuse "unsupported operation")
  run_parser (some parse) operation params = bind (parse params) (λ input. inr (operation, input))

  -- `ParseToolArgs` once the operation is named.
  unfoldable pub parse_operation : String → RawParams P → String → ToolError ⊎ (String × ToolInput)
  unfolding parsers run_parser
  parse_operation operation raw_params root =
      bind (params_of raw_params)
        (λ params. run_parser (Map.get (parsers root) operation) operation params)

  -- From the operation's name on; it is `none` where it is missing or no text.
  unfoldable pub parse_named :
      Option String → RawParams P → String → ToolError ⊎ (String × ToolInput)
  unfolding parse_operation
  parse_named none raw_params root = inl (refuse "operation is required")
  parse_named (some name) raw_params root =
      if blank text name
      then inl (refuse "operation is required")
      else parse_operation (operation_named name) raw_params root

  unfoldable pub parse_tool_args : String → RawArgs P → String → ToolError ⊎ (String × ToolInput)
  unfolding parse_named
  parse_tool_args tool raw root =
      if blank text tool
      then inl (refuse "tool name is required")
      else if not (str_eq tool "circular")
      then inl (refuse "unsupported tool")
      else parse_named raw.operation raw.params root
