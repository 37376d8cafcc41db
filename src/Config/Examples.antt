-- ===== src/Config/Examples.antt =====
-- A configuration, and the theorems at it.
use code_watch.Prelude.{
  String, Bool, true, false, ◌&&◌, ◌||◌, none, some, [], ◌∷◌, ◌≡◌, refl, ◌≤◌, map, not, is_some,
  contains, All,
}
use code_watch.Prelude.Int.{pos}
use code_watch.Prelude.Unique.{unique, all}
use code_watch.Text.{GoText, GoPath, blank}
use code_watch.Layers.{new_layer_rule_engine}
use code_watch.Layers.Paths.{PathText}
use code_watch.Worker.{base_delay, max_delay, at_least_one}
use code_watch.Config.Types.{Config, Projects, Output, Architecture, WriteQueue, Mcp}
use code_watch.Config.Loops.{accepted}
use code_watch.Config.Projects.{
  validate_projects, complete, project_names, project_namespaces, validate_projects-accepts,
}
use code_watch.Config.Architecture.{validate_architecture, layer_names}
use code_watch.Config.Rules.{
  architecture_model_from_config, IsEnforced, validate_architecture-keeps,
}
use code_watch.Config.Output.{validate_output, set_files, output_files, validate_output-unique}
use code_watch.Config.Validate.{found_dir, validate, worker_config, validate_gives_worker}

-- Texts that are trimmed and in lower case as they stand.
abbrev as_is : GoText
as_is = record { trim = λ s. s; lower = λ s. s; has_space = λ s. false }

abbrev paths_as_is : GoPath
paths_as_is = record {
  clean = λ s. s;
  matches = λ p s. false;
  is_abs = λ s. false;
  join = λ a b. b;
  abs = λ s. some s;
}

abbrev no_globs : PathText
no_globs = record { clean = λ s. s; wildcard = λ s. false; compile = λ s. none }

abbrev two_projects : Projects
two_projects = record {
  active = "api";
  entries =
      record { name = "api"; root = "/srv/api"; db_namespace = "a" }
      ∷ record { name = "ui"; root = "/srv/ui"; db_namespace = "u" }
      ∷ [];
}

abbrev layered : Architecture
layered = record {
  enabled = true;
  layers =
      record { name = "db"; paths = "internal/db" ∷ [] }
      ∷ record { name = "ui"; paths = "internal/ui" ∷ [] }
      ∷ [];
  rules =
      record {
        name = "ui on db";
        kind = "";
        from = "ui";
        allow = "db" ∷ [];
        modules = [];
        max_files = pos 0;
        imports_allow = [];
        imports_deny = [];
        exclude_tests = false;
        exclude_files = [];
      }
      ∷ [];
}

abbrev outputs : Output
outputs = record {
  dot = "graph.dot";
  tsv = "graph.tsv";
  mermaid = "";
  plant_uml = "";
  markdown = "";
  sarif = "";
  entry_points = "main" ∷ [];
  max_depth = pos 8;
  verbosity = "standard";
  update_markdown = record { file = "README.md"; marker = "deps"; format = "mermaid" } ∷ [];
  diagrams_dir = "docs";
}

abbrev queue : WriteQueue
queue = record {
  memory_capacity = pos 2048;
  persistent_enabled = none;
  spool_path = "spool.db";
  batch_size = pos 128;
  flush_interval = pos 250000000;
  shutdown_drain_timeout = pos 10000000000;
  retry_base_delay = pos 500000000;
  retry_max_delay = pos 30000000000;
}

abbrev quiet : Mcp
quiet = record {
  enabled = false;
  mode = "embedded";
  transport = "stdio";
  address = "";
  open_api_spec_path = "";
  open_api_spec_url = "";
  server_name = "";
  server_version = "";
  exposed_tool_name = "";
  operation_allowlist = [];
  max_response_items = pos 500;
  request_timeout = pos 30000000000;
}

abbrev sound : Config
sound = record {
  version = pos 2;
  db = record { driver = "sqlite"; path = "data.db"; project_mode = "multi" };
  projects = two_projects;
  mcp = quiet;
  grammars_path = "grammars";
  languages = [];
  dynamic_grammars = [];
  watch_paths = "." ∷ [];
  output = outputs;
  architecture = layered;
  secrets = record {
    enabled = false;
    threshold_below_one = false;
    threshold_above_eight = false;
    threshold_is_zero = false;
    min_token_length = pos 20;
    patterns = [];
  };
  resolver = record { confirmed_threshold = pos 8; probable_threshold = pos 5 };
  write_queue = queue;
}

sound_accepted : validate as_is paths_as_is (λ e. true) (λ p. found_dir) sound ≡ []
unfolding validate code_watch.Prelude.Map.get code_watch.Prelude.Map.put
sound_accepted = refl

layered_accepted : validate_architecture as_is paths_as_is layered ≡ none
unfolding validate_architecture code_watch.Prelude.Map.get code_watch.Prelude.Map.put
layered_accepted = refl

outputs_accepted : validate_output as_is paths_as_is outputs ≡ none
unfolding validate_output code_watch.Prelude.Map.get code_watch.Prelude.Map.put
outputs_accepted = refl

validate_projects-accepts_example : accepted (validate_projects as_is two_projects) ≡ (
    (all (complete as_is) two_projects.entries
      && (unique (project_names as_is two_projects.entries)
          && unique (project_namespaces as_is two_projects.entries)))
    && (blank as_is two_projects.active
        || contains (as_is.trim two_projects.active) (project_names as_is two_projects.entries)))
validate_projects-accepts_example = validate_projects-accepts as_is two_projects

validate_architecture-keeps_example :
    All
      (IsEnforced as_is
        (new_layer_rule_engine no_globs (architecture_model_from_config as_is layered)).rules
        (layer_names layered.layers))
      layered.rules
validate_architecture-keeps_example =
    validate_architecture-keeps as_is paths_as_is no_globs layered refl layered_accepted

validate_output-unique_example :
    (unique (set_files as_is paths_as_is (output_files as_is paths_as_is outputs)) ≡ true)
    × (unique (map as_is.trim outputs.entry_points) ≡ true)
validate_output-unique_example = validate_output-unique as_is paths_as_is outputs outputs_accepted

validate_gives_worker_example :
    (pos (at_least_one (worker_config queue true).batch_size) ≡ queue.batch_size)
    × (pos (base_delay (worker_config queue true)) ≡ queue.retry_base_delay)
    × (pos (max_delay (worker_config queue true)) ≡ queue.retry_max_delay)
    × (base_delay (worker_config queue true) ≤ max_delay (worker_config queue true))
validate_gives_worker_example =
    validate_gives_worker as_is paths_as_is (λ e. true) (λ p. found_dir) sound true sound_accepted
