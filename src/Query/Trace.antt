-- ===== src/Query/Trace.antt =====
-- internal/data/query/service.go: the trace of imports between two modules (`DependencyTrace`).
use code_watch.Prelude.{
  ℕ, ◌-◌, String, Bool, false, ◌&&◌, Option, none, some, List, length, ltb, if◌then◌else◌,
}
use code_watch.Prelude.Int.{ℤ, pos, negsuc}
use code_watch.Graph.{Graph}
use code_watch.Graph.Chain.{find_import_chain}

pub record TraceResult : Type 0 where
  pub from : String
  pub to : String
  pub path : List String
  pub depth : ℕ

-- A result, or an error with what its message quotes.
pub data Trace : Type 0 where
  traced : TraceResult → Trace
  no_path : String → String → Trace
  too_deep : ℕ → ℤ → Trace

-- `maxDepth > 0 && depth > maxDepth`
abbrev exceeds : ℤ → ℕ → Bool
exceeds (pos n) depth = ltb 0 n && ltb n depth
exceeds (negsuc n) depth = false

-- The checks on the chain that was found.
unfoldable pub trace_of : String → String → ℤ → Option (Option (List String)) → Option Trace
trace_of from to max_depth none = none
trace_of from to max_depth (some none) = some (no_path from to)
trace_of from to max_depth (some (some path)) =
    let depth = length path - 1 in
    if exceeds max_depth depth
    then some (too_deep depth max_depth)
    else some (traced (record { from = from; to = to; path = path; depth = depth }))

-- `DependencyTrace` with a context that is not cancelled
unfoldable pub dependency_trace : Graph → String → String → ℤ → Option Trace
unfolding trace_of
dependency_trace g from to max_depth = trace_of from to max_depth (find_import_chain g from to)
