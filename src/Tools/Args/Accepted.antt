-- ===== src/Tools/Args/Accepted.antt =====
-- internal/mcp/validate/args.go: what the arguments that are not refused are like.
use Prim.Native.String.{len}
use mathlib.Core.Path.{subst}
use code_watch.Prelude.{
  String, Bool, true, false, not, ◌&&◌, ◌||◌, Option, none, some, [], ◌∷◌, length, if◌then◌else◌,
  ltb, leb, str_eq, arith, ◌≡◌, refl, sym, ◌∙◌, ap, inl, inr, Bool-cases, String-cases, ◌⊎◌, eq_iff,
}
use code_watch.Prelude.Unique.{all}
use code_watch.Prelude.Int.{ℤ}
use code_watch.Prelude.Map
use code_watch.Prelude.Map.{Map}
use code_watch.Text.{GoText, GoPath, blank}
use code_watch.Layers.Paths.{PathText}
use code_watch.Tools.Paths.{
  ToolError, refuse, sanitize_paths, sanitize_paths-within, within, max_path_count,
}
use code_watch.Tools.Args.{
  ToolInput, Decoder, RawArgs, RawParams, scan_run, secrets_scan, secrets_list, graph_cycles,
  graph_sync_diagrams, query_modules, query_module_details, query_trace, system_sync_config,
  system_generate_config, system_generate_script, system_select_project, query_trends, system_watch,
  report_generate_markdown, max_limit_value, max_trace_depth, max_format_count, max_filter_length,
  out_of, bind, unless, allowed_verbosity, parse_scan, parse_secrets_scan, parse_limit,
  parse_formats, parse_modules, parse_name, parse_trace, parse_trends, parse_nothing, parse_report,
  parsers, operation_named, params_of, run_parser, parse_operation, parse_named, parse_tool_args,
}

-- The operation is the one the input is for, and the input is within its bounds.
abbrev pub valid : (String → Bool) → String → ToolInput → Bool
valid inside op (scan_run input) =
    str_eq op "scan.run" && (leb (length input.paths) max_path_count && all inside input.paths)
valid inside op (secrets_scan paths) =
    str_eq op "secrets.scan" && (leb (length paths) max_path_count && all inside paths)
valid inside op (secrets_list limit) =
    str_eq op "secrets.list" && not (out_of max_limit_value limit)
valid inside op (graph_cycles limit) =
    str_eq op "graph.cycles" && not (out_of max_limit_value limit)
valid inside op (graph_sync_diagrams formats) =
    str_eq op "graph.sync_diagrams" && not (ltb max_format_count (length formats))
valid inside op (query_modules input) =
    str_eq op "query.modules"
    && (not (ltb max_filter_length (len input.filter)) && not (out_of max_limit_value input.limit))
valid inside op (query_module_details name) =
    str_eq op "query.module_details" && not (str_eq name "")
valid inside op (query_trace input) =
    str_eq op "query.trace"
    && (not (str_eq input.from "" || str_eq input.to "")
        && not (out_of max_trace_depth input.max_depth))
valid inside op system_sync_config = str_eq op "system.sync_config"
valid inside op system_generate_config = str_eq op "system.generate_config"
valid inside op system_generate_script = str_eq op "system.generate_script"
valid inside op (system_select_project name) =
    str_eq op "system.select_project" && not (str_eq name "")
valid inside op (query_trends input) =
    str_eq op "query.trends" && not (out_of max_limit_value input.limit)
valid inside op system_watch = str_eq op "system.watch"
valid inside op (report_generate_markdown input) =
    str_eq op "report.generate_markdown"
    && not (not (str_eq input.verbosity "") && not (allowed_verbosity input.verbosity))

pub bind-inr {ℓ κ} :
    {A : Type ℓ} {B : Type κ} (o : ToolError ⊎ A) (f : A → ToolError ⊎ B) (b : B)
    → bind o f ≡ inr b
    → (a : A) × (o ≡ inr a) × (f a ≡ inr b)
bind-inr (inl e) f b h = absurd (ground (arith, h))
bind-inr (inr a) f b h = (a, refl, h)

if-inr {ℓ} :
    {A : Type ℓ} (b : Bool) (e : ToolError) (o : ToolError ⊎ A) (a : A)
    → (if b then inl e else o) ≡ inr a
    → o ≡ inr a
if-inr true e o a h = absurd (ground (arith, h))
if-inr false e o a h = h

both : (a b : Bool) → a ≡ false → b ≡ false → (not a && not b) ≡ true
both a b h k = ground (arith, h, k)

module _ (inside : String → Bool) where
  -- Every input that a parser lets through is valid for the operation, which is not the old name.
  abbrev IsFit : {P : Type 0} → String → (P → ToolError ⊎ ToolInput) → Type 0
  IsFit op parse =
      (params : _) (input : ToolInput)
      → str_eq op "system.sync_outputs" ≡ false
      → parse params ≡ inr input
      → valid inside op input ≡ true

  abbrev AllFit : {P : Type 0} → Map (P → ToolError ⊎ ToolInput) → Type 0
  AllFit [] = Unit
  AllFit ((op, parse) ∷ rest) = IsFit op parse × AllFit rest

  AllFit-get :
      {P : Type 0} (m : Map (P → ToolError ⊎ ToolInput)) (op : String)
      (parse : P → ToolError ⊎ ToolInput)
      → AllFit m
      → Map.get m op ≡ some parse
      → IsFit op parse
  unfolding Map.get
  AllFit-get [] op parse fit h = absurd (ground (arith, h))
  AllFit-get ((k, q) ∷ m) op parse fit h = elim (String-cases k op) [
    | inl same ↦
        let found : q ≡ parse = ground (arith, h, eq_iff k op, same) in
        subst (λ o. IsFit o parse) same (subst (λ r. IsFit k r) found fit.0)
    | inr other ↦ AllFit-get m op parse fit.1 (ground (arith, h, other))
  ]

  -- The same of one outcome.
  abbrev Fits : String → ToolError ⊎ ToolInput → Type 0
  Fits op (inl e) = Unit
  Fits op (inr input) = valid inside op input ≡ true

  Fits-inr :
      (op : String) (o : ToolError ⊎ ToolInput) (input : ToolInput)
      → Fits op o
      → o ≡ inr input
      → valid inside op input ≡ true
  Fits-inr op (inl e) input f h = absurd (ground (arith, h))
  Fits-inr op (inr i) input f h =
      let same : i ≡ input = ground (arith, h) in sym (ap (valid inside op) same) ∙ f

  bind-Fits :
      {A : Type 0} (op : String) (o : ToolError ⊎ A) (f : A → ToolError ⊎ ToolInput)
      → ((a : A) → o ≡ inr a → Fits op (f a))
      → Fits op (bind o f)
  bind-Fits op (inl e) f h = tt
  bind-Fits op (inr a) f h = h a refl

  unless-Fits :
      (op : String) (b : Bool) (message : String) (i : ToolInput)
      → (b ≡ false → valid inside op i ≡ true)
      → Fits op (unless b message i)
  unless-Fits op true message i h = tt
  unless-Fits op false message i h = h refl

  if-Fits :
      (op : String) (b : Bool) (e : ToolError) (o : ToolError ⊎ ToolInput)
      → (b ≡ false → Fits op o)
      → Fits op (if b then inl e else o)
  if-Fits op true e o h = tt
  if-Fits op false e o h = h refl

module _ (text : GoText) (path : GoPath) (globs : PathText) {P : Type 0} (decode : Decoder P)
    (root : String) where
  abbrev here : String → Bool
  here p = within text path globs root p

  parse_scan-Fits :
      (params : P) → Fits here "scan.run" (parse_scan text path globs decode params root)
  unfolding parse_scan
  parse_scan-Fits params = bind-Fits here "scan.run" (decode.scan params) _ (λ input e.
      bind-Fits here "scan.run" (sanitize_paths text path globs input.paths root) _
        (λ paths clean. sanitize_paths-within text path globs input.paths root paths clean))

  parse_secrets_scan-Fits :
      (params : P)
      → Fits here "secrets.scan" (parse_secrets_scan text path globs decode params root)
  unfolding parse_secrets_scan
  parse_secrets_scan-Fits params = bind-Fits here "secrets.scan" (decode.texts params) _ (λ raw e.
      bind-Fits here "secrets.scan" (sanitize_paths text path globs raw root) _
        (λ paths clean. sanitize_paths-within text path globs raw root paths clean))

  parse_limit-Fits :
      (op : String) (i : ℤ → ToolInput) (params : P)
      → ((limit : ℤ) → out_of max_limit_value limit ≡ false → valid here op (i limit) ≡ true)
      → Fits here op (parse_limit text path globs decode i params)
  unfolding parse_limit
  parse_limit-Fits op i params v = bind-Fits here op (decode.limit params) _ (λ limit e.
      unless-Fits here op (out_of max_limit_value limit) "limit is out of range" (i limit)
        (v limit))

  parse_formats-Fits :
      (params : P) → Fits here "graph.sync_diagrams" (parse_formats text path globs decode params)
  unfolding parse_formats
  parse_formats-Fits params =
      bind-Fits here "graph.sync_diagrams" (decode.texts params) _
        (λ formats e. unless-Fits here "graph.sync_diagrams" _ _ _ (λ few. ap not few))

  parse_modules-Fits :
      (params : P) → Fits here "query.modules" (parse_modules text path globs decode params)
  unfolding parse_modules
  parse_modules-Fits params = bind-Fits here "query.modules" (decode.modules params) _ (λ input e.
      if-Fits here "query.modules" (ltb max_filter_length (len (text.trim input.filter)))
        (refuse "filter is too long")
        (unless (out_of max_limit_value input.limit) "limit is out of range"
          (query_modules (record { filter = text.trim input.filter; limit = input.limit })))
        (λ short.
          unless-Fits here "query.modules" (out_of max_limit_value input.limit)
            "limit is out of range"
            (query_modules (record { filter = text.trim input.filter; limit = input.limit }))
            (λ small.
              both (ltb max_filter_length (len (text.trim input.filter)))
                (out_of max_limit_value input.limit) short small)))

  parse_name-Fits :
      (op : String) (i : String → ToolInput) (message : String) (params : P)
      → ((name : String) → str_eq name "" ≡ false → valid here op (i name) ≡ true)
      → Fits here op (parse_name text path globs decode i message params)
  unfolding parse_name
  parse_name-Fits op i message params v =
      bind-Fits here op (decode.text params) _
        (λ raw e. unless-Fits here op _ message _ (v (text.trim raw)))

  parse_trace-Fits :
      (params : P) → Fits here "query.trace" (parse_trace text path globs decode params)
  unfolding parse_trace
  parse_trace-Fits params = bind-Fits here "query.trace" (decode.trace params) _ (λ input e.
      let trace = query_trace (record {
        from = text.trim input.from;
        to = text.trim input.to;
        max_depth = input.max_depth;
      }) in
      if-Fits here "query.trace"
        (str_eq (text.trim input.from) "" || str_eq (text.trim input.to) "")
        (refuse "from_module and to_module are required")
        (unless (out_of max_trace_depth input.max_depth) "max_depth is out of range" trace)
        (λ named.
          unless-Fits here "query.trace" (out_of max_trace_depth input.max_depth)
            "max_depth is out of range" trace
            (λ small.
              both (str_eq (text.trim input.from) "" || str_eq (text.trim input.to) "")
                (out_of max_trace_depth input.max_depth) named small)))

  parse_trends-Fits :
      (params : P) → Fits here "query.trends" (parse_trends text path globs decode params)
  unfolding parse_trends
  parse_trends-Fits params =
      bind-Fits here "query.trends" (decode.trends params) _
        (λ input e. unless-Fits here "query.trends" _ _ _ (λ small. ap not small))

  parse_nothing-Fits :
      (op : String) (i : ToolInput) (params : P)
      → valid here op i ≡ true
      → Fits here op (parse_nothing text path globs decode i params)
  unfolding parse_nothing
  parse_nothing-Fits op i params v = bind-Fits here op (decode.nothing params) _ (λ u e. v)

  parse_report-Fits :
      (params : P)
      → Fits here "report.generate_markdown" (parse_report text path globs decode params)
  unfolding parse_report
  parse_report-Fits params =
      bind-Fits here "report.generate_markdown" (decode.report params) _
        (λ input e. unless-Fits here "report.generate_markdown" _ _ _ (λ good. ap not good))

  parsers-AllFit : AllFit here (parsers text path globs decode root)
  unfolding parsers
  parsers-AllFit = (
    λ p i n.
        Fits-inr here "scan.run" (parse_scan text path globs decode p root) i (parse_scan-Fits p),
    (
      λ p i n.
          Fits-inr here "secrets.scan" (parse_secrets_scan text path globs decode p root) i
            (parse_secrets_scan-Fits p),
      (
        λ p i n.
            Fits-inr here "secrets.list" (parse_limit text path globs decode secrets_list p) i
              (parse_limit-Fits "secrets.list" secrets_list p (λ l small. ap not small)),
        (
          λ p i n.
              Fits-inr here "graph.cycles" (parse_limit text path globs decode graph_cycles p) i
                (parse_limit-Fits "graph.cycles" graph_cycles p (λ l small. ap not small)),
          (
            λ p i n.
                Fits-inr here "graph.sync_diagrams" (parse_formats text path globs decode p) i
                  (parse_formats-Fits p),
            (
              λ p i n.
                  Fits-inr here "query.modules" (parse_modules text path globs decode p) i
                    (parse_modules-Fits p),
              (
                λ p i n.
                    Fits-inr here "query.module_details"
                      (parse_name text path globs decode query_module_details "module is required"
                        p)
                      i
                      (parse_name-Fits "query.module_details" query_module_details
                        "module is required" p (λ s named. ap not named)),
                (
                  λ p i n.
                      Fits-inr here "query.trace" (parse_trace text path globs decode p) i
                        (parse_trace-Fits p),
                  (
                    λ p i n. absurd (ground (arith, n)),
                    (
                      λ p i n.
                          Fits-inr here "system.sync_config"
                            (parse_nothing text path globs decode system_sync_config p) i
                            (parse_nothing-Fits "system.sync_config" system_sync_config p refl),
                      (
                        λ p i n.
                            Fits-inr here "system.generate_config"
                              (parse_nothing text path globs decode system_generate_config p) i
                              (parse_nothing-Fits "system.generate_config" system_generate_config p
                                refl),
                        (
                          λ p i n.
                              Fits-inr here "system.generate_script"
                                (parse_nothing text path globs decode system_generate_script p) i
                                (parse_nothing-Fits "system.generate_script" system_generate_script
                                  p refl),
                          (
                            λ p i n.
                                Fits-inr here "system.select_project"
                                  (parse_name text path globs decode system_select_project
                                    "name is required" p)
                                  i
                                  (parse_name-Fits "system.select_project" system_select_project
                                    "name is required" p (λ s named. ap not named)),
                            (
                              λ p i n.
                                  Fits-inr here "query.trends"
                                    (parse_trends text path globs decode p) i (parse_trends-Fits p),
                              (
                                λ p i n.
                                    Fits-inr here "system.watch"
                                      (parse_nothing text path globs decode system_watch p) i
                                      (parse_nothing-Fits "system.watch" system_watch p refl),
                                (
                                  λ p i n.
                                      Fits-inr here "report.generate_markdown"
                                        (parse_report text path globs decode p) i
                                        (parse_report-Fits p),
                                  tt,
                                ),
                              ),
                            ),
                          ),
                        ),
                      ),
                    ),
                  ),
                ),
              ),
            ),
          ),
        ),
      ),
    ),
  )

  operation_named-other :
      (raw : String)
      → str_eq (operation_named text path globs decode raw) "system.sync_outputs" ≡ false
  operation_named-other raw = elim (Bool-cases (str_eq (text.trim raw) "system.sync_outputs")) [
    | inl old ↦ rw old refl
    | inr new ↦ rw new new
  ]

  run_parser-inr :
      (found : Option (P → ToolError ⊎ ToolInput)) (named op : String) (params : P)
      (input : ToolInput)
      → run_parser text path globs decode found named params ≡ inr (op, input)
      → (parse : P → ToolError ⊎ ToolInput) × (found ≡ some parse)
        × (parse params ≡ inr input)
        × (named ≡ op)
  unfolding run_parser
  run_parser-inr none named op params input h = absurd (ground (arith, h))
  run_parser-inr (some parse) named op params input h =
      let (i, p, e) = bind-inr (parse params) (λ j. inr (named, j)) (op, input) h in
      let pairs : ◌≡◌ {A = String × ToolInput} (named, i) (op, input) = ground (arith, e) in
      (parse, refl, p ∙ ap inr (ap (λ q. q.1) pairs), ap (λ q. q.0) pairs)

  parse_operation_valid :
      (named op : String) (raw : RawParams P) (input : ToolInput)
      → str_eq named "system.sync_outputs" ≡ false
      → parse_operation text path globs decode named raw root ≡ inr (op, input)
      → valid here op input ≡ true
  unfolding parse_operation
  parse_operation_valid named op raw input other h =
      let (params, d, e) =
        bind-inr (params_of text path globs decode raw)
          (λ q.
            run_parser text path globs decode (Map.get (parsers text path globs decode root) named)
              named q)
          (op, input) h in
      let (parse, found, runs, same) =
        run_parser-inr (Map.get (parsers text path globs decode root) named) named op params input
          e in
      subst (λ o. valid here o input ≡ true) same
        (AllFit-get here (parsers text path globs decode root) named parse (parsers-AllFit) found
          params input other runs)

  parse_named_valid :
      (name : Option String) (op : String) (raw : RawParams P) (input : ToolInput)
      → parse_named text path globs decode name raw root ≡ inr (op, input)
      → valid here op input ≡ true
  unfolding parse_named
  parse_named_valid none op raw input h = absurd (ground (arith, h))
  parse_named_valid (some name) op raw input h =
      let named = operation_named text path globs decode name in
      parse_operation_valid named op raw input (operation_named-other name) (
        if-inr (blank text name) (refuse "operation is required")
          (parse_operation text path globs decode named raw root) (op, input) h)

  -- Arguments that are not refused give an operation of the tool and an input for that operation,
  -- never for another one, within its bounds: at most 64 paths, each within the project's root
  -- where one is given, at most 8 formats, a filter of at most 200 bytes, limits from 0 to 5000 and
  -- depths from 0 to 100, names that are not empty and a verbosity that is empty or one of three.
  pub parse_tool_args_valid :
      (tool : String) (raw : RawArgs P) (op : String) (input : ToolInput)
      → parse_tool_args text path globs decode tool raw root ≡ inr (op, input)
      → valid here op input ≡ true
  unfolding parse_tool_args
  parse_tool_args_valid tool raw op input h = parse_named_valid raw.operation op raw.params input (
      if-inr (not (str_eq tool "circular")) (refuse "unsupported tool")
        (parse_named text path globs decode raw.operation raw.params root) (op, input)
        (if-inr (blank text tool) (refuse "tool name is required")
          (if not (str_eq tool "circular")
            then inl (refuse "unsupported tool")
            else parse_named text path globs decode raw.operation raw.params root)
          (op, input) h))
