-- ===== src/Config/Validate.antt =====
-- internal/core/config/validator.go: all the checks of a configuration, whose errors are collected.
use code_watch.Prelude.{
  ℕ, String, Bool, false, ◌&&◌, Option, none, some, List, [], ◌∷◌, ◌++◌, if◌then◌else◌, str_eq,
  ◌==◌, arith, ◌≡◌, refl, ◌∙◌, ap, All, length, ◌≤◌,
}
use code_watch.Prelude.Int.{ℤ, pos, negsuc, lessℤ}
use code_watch.Text.{GoText, GoPath, blank}
use code_watch.Worker.{WriteQueueConfig, base_delay, max_delay, at_least_one}
use code_watch.Config.Types.{
  Config, Mcp, SecretsConfig, WriteQueue, Fault, empty_value, missing, out_of_range, invalid,
}
use code_watch.Config.Sections.{
  is_empty, validate_version, validate_database, validate_languages, validate_grammars,
  validate_secrets, persistent_queue_enabled, validate_resolver, validate_write_queue,
}
use code_watch.Config.Projects.{validate_projects}
use code_watch.Config.Mcp.{validate_mcp}
use code_watch.Config.Architecture.{validate_architecture}
use code_watch.Config.Output.{validate_output}

-- What `os.Stat` says of a path.
pub data Stat : Type 0 where
  not_exist : Stat
  other_error : Stat
  found_file : Stat
  found_dir : Stat

-- `if err := …; err != nil { errs = append(errs, err) }`
abbrev pub collect : Option Fault → List Fault
collect none = []
collect (some e) = e ∷ []

unfoldable pub validate_config_dependencies : Mcp → SecretsConfig → List Fault
validate_config_dependencies mcp secrets =
    (if mcp.enabled && (str_eq mcp.transport "http" && str_eq mcp.address "")
      then empty_value "mcp.address" ∷ []
      else [])
    ++ (if secrets.enabled && (is_empty secrets.patterns && secrets.threshold_is_zero)
        then missing "patterns or entropy threshold" ∷ []
        else [])

abbrev pub grammars_fault : Stat → List Fault
grammars_fault not_exist = missing "grammars_path" ∷ []
grammars_fault other_error = []
grammars_fault found_file = invalid "grammars_path" ∷ []
grammars_fault found_dir = []

abbrev pub watch_fault : Stat → List Fault
watch_fault not_exist = missing "watch_paths" ∷ []
watch_fault other_error = []
watch_fault found_file = []
watch_fault found_dir = []

abbrev pub nat_of : ℤ → ℕ
nat_of (pos n) = n
nat_of (negsuc n) = 0

-- The worker's settings; the configuration's numbers are its own.
abbrev pub worker_config : WriteQueue → Bool → WriteQueueConfig
worker_config q sync_fallback = record {
  batch_size = nat_of q.batch_size;
  retry_base_delay = nat_of q.retry_base_delay;
  retry_max_delay = nat_of q.retry_max_delay;
  sync_fallback = sync_fallback;
}

nat_of-pos : (z : ℤ) (n : ℕ) → lessℤ z (pos n) ≡ false → (pos (nat_of z) ≡ z) × (n ≤ nat_of z)
nat_of-pos (pos m) n h = (refl, ground (arith, h))
nat_of-pos (negsuc m) n h = absurd (ground (arith, h))

nat_of_mono : (a b : ℤ) → lessℤ a b ≡ false → nat_of b ≤ nat_of a
nat_of_mono (pos m) (pos n) h = ground (arith, h)
nat_of_mono (pos m) (negsuc n) h = omega arith
nat_of_mono (negsuc m) (pos n) h = absurd (ground (arith, h))
nat_of_mono (negsuc m) (negsuc n) h = omega arith

above-pos : (a b : ℤ) → lessℤ a b ≡ false → pos (nat_of b) ≡ b → pos (nat_of a) ≡ a
above-pos (pos m) b h e = refl
above-pos (negsuc m) (pos n) h e = absurd (ground (arith, h))
above-pos (negsuc m) (negsuc n) h e = absurd (ground (arith, e))

no_default : (n d k : ℕ) → 1 ≤ k → k ≤ n → (if n == 0 then d else n) ≡ n
no_default n d k h l = ground (arith, h, l)

append-nil : {A : Type 0} (xs ys : List A) → xs ++ ys ≡ [] → (xs ≡ []) × (ys ≡ [])
append-nil [] ys h = (refl, h)
append-nil (x ∷ xs) ys h = absurd (ground (arith, ap length h))

collect-none : (o : Option Fault) → collect o ≡ [] → o ≡ none
collect-none none h = refl
collect-none (some e) h = absurd (ground (arith, ap length h))

six_tests :
    (a b c d e f g : Bool) (i j k l m n o : Fault)
    → (if a
        then some i
        else if b
        then some j
        else if c
        then some k
        else if d
        then some l
        else if e
        then some m
        else if f
        then some n
        else if g
        then some o
        else none)
      ≡ none
    → (b ≡ false) × (e ≡ false) × (f ≡ false)
six_tests a b c d e f g i j k l m n o h = ground (arith, h)

module _ (text : GoText) (path : GoPath) (compiles : String → Bool) (stat : String → Stat) where
  unfoldable pub watch_faults : List String → List Fault
  watch_faults [] = []
  watch_faults (p ∷ ps) =
      let rest = watch_faults ps in if str_eq p "" then rest else watch_fault (stat p) ++ rest

  unfoldable pub validate_paths : String → List String → List Fault
  unfolding watch_faults
  validate_paths grammars watch =
      (if str_eq grammars "" then [] else grammars_fault (stat grammars)) ++ watch_faults watch

  -- The sections' verdicts in the order of the calls.
  unfoldable pub section_verdicts : Config → List (Option Fault)
  unfolding validate_version validate_projects validate_database validate_mcp validate_architecture
      validate_output validate_languages validate_grammars validate_secrets validate_resolver
      validate_write_queue
  section_verdicts cfg =
      validate_version cfg.version
      ∷ validate_projects text cfg.projects
      ∷ validate_database text cfg.db
      ∷ validate_mcp text cfg.mcp
      ∷ validate_architecture text path cfg.architecture
      ∷ validate_output text path cfg.output
      ∷ validate_languages text cfg.languages
      ∷ validate_grammars text [] cfg.dynamic_grammars
      ∷ validate_secrets text compiles cfg.secrets
      ∷ validate_resolver cfg.resolver
      ∷ validate_write_queue text cfg.write_queue
      ∷ []

  abbrev pub collect_all : List (Option Fault) → List Fault
  collect_all [] = []
  collect_all (o ∷ os) = collect o ++ collect_all os

  unfoldable pub validate : Config → List Fault
  unfolding section_verdicts validate_config_dependencies validate_paths
  validate cfg =
      collect_all (section_verdicts cfg)
      ++ (validate_config_dependencies cfg.mcp cfg.secrets
          ++ validate_paths cfg.grammars_path cfg.watch_paths)

  collect_all-none : (os : List (Option Fault)) → collect_all os ≡ [] → All (λ o. o ≡ none) os
  collect_all-none [] h = tt
  collect_all-none (o ∷ os) h =
      let (first, others) = append-nil (collect o) (collect_all os) h in
      (collect-none o first, collect_all-none os others)

  write_queue_accepted :
      (cfg : Config) → validate cfg ≡ [] → validate_write_queue text cfg.write_queue ≡ none
  unfolding validate section_verdicts
  write_queue_accepted cfg h =
      let (sections, others) =
        append-nil (collect_all (section_verdicts cfg))
          (validate_config_dependencies cfg.mcp cfg.secrets
            ++ validate_paths cfg.grammars_path cfg.watch_paths)
          h in
      (collect_all-none (section_verdicts cfg) sections).1.1.1.1.1.1.1.1.1.1.0

  -- A configuration with no errors makes the write worker run with its own numbers: none of the
  -- worker's defaults for a missing batch size or delay is used, and the first delay is at most
  -- the longest one.
  pub validate_gives_worker :
      (cfg : Config) (sync_fallback : Bool)
      → validate cfg ≡ []
      → (pos (at_least_one (worker_config cfg.write_queue sync_fallback).batch_size)
          ≡ cfg.write_queue.batch_size)
        × (pos (base_delay (worker_config cfg.write_queue sync_fallback))
            ≡ cfg.write_queue.retry_base_delay)
        × (pos (max_delay (worker_config cfg.write_queue sync_fallback))
            ≡ cfg.write_queue.retry_max_delay)
        × (base_delay (worker_config cfg.write_queue sync_fallback)
            ≤ max_delay (worker_config cfg.write_queue sync_fallback))
  unfolding base_delay max_delay validate_write_queue
  validate_gives_worker cfg sync_fallback h =
      let q = cfg.write_queue in
      let (batch, base, most) =
        six_tests (lessℤ q.memory_capacity (pos 1)) (lessℤ q.batch_size (pos 1))
          (lessℤ q.flush_interval (pos 10000000)) (lessℤ q.shutdown_drain_timeout (pos 1000000000))
          (lessℤ q.retry_base_delay (pos 10000000)) (lessℤ q.retry_max_delay q.retry_base_delay)
          (persistent_queue_enabled q && blank text q.spool_path) (out_of_range "memory_capacity")
          (out_of_range "batch_size") (out_of_range "flush_interval")
          (out_of_range "shutdown_drain_timeout") (out_of_range "retry_base_delay")
          (out_of_range "retry_max_delay") (empty_value "spool_path")
          (write_queue_accepted cfg h) in
      let (b, some_batch) = nat_of-pos q.batch_size 1 batch in
      let (d, some_delay) = nat_of-pos q.retry_base_delay 10000000 base in
      let longer = nat_of_mono q.retry_max_delay q.retry_base_delay most in
      let batch_kept = no_default (nat_of q.batch_size) 1 1 (omega arith) some_batch in
      let base_kept =
        no_default (nat_of q.retry_base_delay) 500000000 10000000 (omega arith) some_delay in
      let max_kept =
        no_default (nat_of q.retry_max_delay) 30000000000 10000000 (omega arith)
          (omega (arith, longer, some_delay)) in
      (
        ap pos batch_kept ∙ b,
        ap pos base_kept ∙ d,
        ap pos max_kept ∙ above-pos q.retry_max_delay q.retry_base_delay most d,
        omega (arith, longer, base_kept, max_kept),
      )
