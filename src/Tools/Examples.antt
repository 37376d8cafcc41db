-- ===== src/Tools/Examples.antt =====
-- Calls of the tool, and the theorems at them.
use code_watch.Prelude.{
  String, Bool, true, false, not, ◌||◌, none, some, [], ◌∷◌, ◌≡◌, refl, map, inl, inr, str_eq,
}
use code_watch.Prelude.Int.{pos}
use code_watch.Prelude.Unique.{unique}
use code_watch.Text.{GoText, GoPath, blank}
use code_watch.Layers.Paths.{PathText}
use code_watch.Config.Types.{Mcp}
use code_watch.Config.Mcp.{validate_mcp}
use code_watch.Config.Sections.{is_empty}
use code_watch.Tools.Texts.{
  normalize_strings, cut, first_places, trimmed_values, normalize_strings_correct,
}
use code_watch.Tools.Paths.{refuse, within}
use code_watch.Tools.Args.{Decoder, RawArgs, object, ToolInput, scan_run, parse_tool_args}
use code_watch.Tools.Args.Accepted.{valid, parse_tool_args_valid}
use code_watch.Tools.Allowlist.{
  allows, build_operation_allowlist, names_operation, allows-validate_mcp,
}

abbrev as_is : GoText
as_is = record { trim = λ s. s; lower = λ s. s; has_space = λ s. false }

abbrev unix : GoPath
unix = record {
  clean = λ s. s;
  matches = λ p s. false;
  is_abs = λ s. true;
  join = λ a b. b;
  abs = λ s. some s;
}

abbrev no_globs : PathText
no_globs = record { clean = λ s. s; wildcard = λ s. false; compile = λ s. none }

-- A decoder of parameters that are a path.
abbrev one_path : Decoder String
one_path = record {
  no_params = "";
  scan = λ p. inr (record { paths = p ∷ []; config_path = ""; project_root = "" });
  texts = λ p. inr (p ∷ []);
  limit = λ p. inr (pos 10);
  modules = λ p. inr (record { filter = p; limit = pos 10 });
  text = λ p. inr p;
  trace = λ p. inl (refuse "invalid params");
  trends = λ p. inr (record { since = p; limit = pos 10 });
  nothing = λ p. inr tt;
  report = λ p. inr (record { write_file = false; path = p; verbosity = "" });
}

abbrev scan_of_app : RawArgs String
scan_of_app = record { operation = some "scan.run"; params = object "/srv/app" }

abbrev app_scanned : ToolInput
app_scanned = scan_run (record { paths = "/srv/app" ∷ []; config_path = ""; project_root = "" })

scan_accepted :
    parse_tool_args as_is unix no_globs one_path "circular" scan_of_app "/srv"
    ≡ inr ("scan.run", app_scanned)
unfolding parse_tool_args code_watch.Prelude.Map.get
scan_accepted = refl

abbrev served : Mcp
served = record {
  enabled = true;
  mode = "server";
  transport = "stdio";
  address = "";
  open_api_spec_path = "";
  open_api_spec_url = "";
  server_name = "circular";
  server_version = "1";
  exposed_tool_name = "";
  operation_allowlist = "scan_once" ∷ "query.trace" ∷ [];
  max_response_items = pos 500;
  request_timeout = pos 30000000000;
}

served_accepted : validate_mcp as_is served ≡ none
unfolding validate_mcp
served_accepted = refl

normalize_strings_correct_example :
    normalize_strings as_is ("a" ∷ "" ∷ "b" ∷ "a" ∷ []) 1
    ≡ cut 1 0 (first_places [] (trimmed_values as_is ("a" ∷ "" ∷ "b" ∷ "a" ∷ [])))
normalize_strings_correct_example = normalize_strings_correct as_is ("a" ∷ "" ∷ "b" ∷ "a" ∷ []) 1

parse_tool_args_valid_example :
    valid (within as_is unix no_globs "/srv") "scan.run" app_scanned ≡ true
parse_tool_args_valid_example =
    parse_tool_args_valid as_is unix no_globs one_path "/srv" "circular" scan_of_app "scan.run"
      app_scanned scan_accepted

allows-validate_mcp_example :
    (allows (build_operation_allowlist as_is (some served)) "scan.run" ≡ (
      not (blank as_is served.exposed_tool_name)
      || names_operation as_is "scan.run" served.operation_allowlist))
    × (is_empty served.operation_allowlist ≡ not (blank as_is served.exposed_tool_name))
    × (unique (map (λ op. as_is.lower (as_is.trim op)) served.operation_allowlist) ≡ true)
allows-validate_mcp_example = allows-validate_mcp as_is served "scan.run" refl served_accepted refl
