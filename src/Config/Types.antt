-- ===== src/Config/Types.antt =====
-- internal/core/config/config.go: the configuration as its checks read it; the keys that no check
-- reads are left out.
use code_watch.Prelude.{String, Bool, Option, List}
use code_watch.Prelude.Int.{ℤ}
use code_watch.Prelude.Map.{Map}

pub record Database : Type 0 where
  pub driver : String
  pub path : String
  pub project_mode : String

pub record ProjectEntry : Type 0 where
  pub name : String
  pub root : String
  pub db_namespace : String

pub record Projects : Type 0 where
  pub active : String
  pub entries : List ProjectEntry

pub record Mcp : Type 0 where
  pub enabled : Bool
  pub mode : String
  pub transport : String
  pub address : String
  pub open_api_spec_path : String
  pub open_api_spec_url : String
  pub server_name : String
  pub server_version : String
  pub exposed_tool_name : String
  pub operation_allowlist : List String
  pub max_response_items : ℤ
  -- A `time.Duration` counts nanoseconds.
  pub request_timeout : ℤ

pub record Language : Type 0 where
  pub extensions : List String
  pub filenames : List String

pub record DynamicGrammar : Type 0 where
  pub name : String
  pub library : String
  pub extensions : List String
  pub filenames : List String
  pub namespace_node : String
  pub import_node : String
  pub definition_nodes : List String

pub record MarkdownInjection : Type 0 where
  pub file : String
  pub marker : String
  pub format : String

-- `Output`, with `Diagrams.FlowConfig`, `Report` and `Paths` in place
pub record Output : Type 0 where
  pub dot : String
  pub tsv : String
  pub mermaid : String
  pub plant_uml : String
  pub markdown : String
  pub sarif : String
  pub entry_points : List String
  pub max_depth : ℤ
  pub verbosity : String
  pub update_markdown : List MarkdownInjection
  pub diagrams_dir : String

pub record LayerEntry : Type 0 where
  pub name : String
  pub paths : List String

-- `ArchitectureRule`, with `Imports` and `Exclude` in place
pub record RuleEntry : Type 0 where
  pub name : String
  pub kind : String
  pub from : String
  pub allow : List String
  pub modules : List String
  pub max_files : ℤ
  pub imports_allow : List String
  pub imports_deny : List String
  pub exclude_tests : Bool
  pub exclude_files : List String

pub record Architecture : Type 0 where
  pub enabled : Bool
  pub layers : List LayerEntry
  pub rules : List RuleEntry

pub record SecretPattern : Type 0 where
  pub name : String
  pub regex : String

-- The entropy threshold is a float64, of which the model only knows the comparisons.
pub record SecretsConfig : Type 0 where
  pub enabled : Bool
  -- `EntropyThreshold < 1.0`
  pub threshold_below_one : Bool
  -- `EntropyThreshold > 8.0`
  pub threshold_above_eight : Bool
  -- `EntropyThreshold == 0`
  pub threshold_is_zero : Bool
  pub min_token_length : ℤ
  pub patterns : List SecretPattern

pub record BridgeScoring : Type 0 where
  pub confirmed_threshold : ℤ
  pub probable_threshold : ℤ

pub record WriteQueue : Type 0 where
  pub memory_capacity : ℤ
  -- `none` is a nil pointer
  pub persistent_enabled : Option Bool
  pub spool_path : String
  pub batch_size : ℤ
  pub flush_interval : ℤ
  pub shutdown_drain_timeout : ℤ
  pub retry_base_delay : ℤ
  pub retry_max_delay : ℤ

pub record Config : Type 0 where
  pub version : ℤ
  pub db : Database
  pub projects : Projects
  pub mcp : Mcp
  pub grammars_path : String
  pub languages : Map Language
  pub dynamic_grammars : List DynamicGrammar
  pub watch_paths : List String
  pub output : Output
  pub architecture : Architecture
  pub secrets : SecretsConfig
  pub resolver : BridgeScoring
  pub write_queue : WriteQueue

-- An error's kind, with the key it names and, where the message quotes one, the value.
pub data Fault : Type 0 where
  empty_value : String → Fault
  out_of_range : String → Fault
  not_one_of : String → Fault
  duplicate : String → String → Fault
  unknown : String → String → Fault
  conflict : String → String → Fault
  missing : String → Fault
  invalid : String → Fault
