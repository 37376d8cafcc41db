-- ===== src/Lib.antt =====
-- code-watch reads the source files of a project, keeps a graph of its modules and their imports, and
-- answers questions about that graph. This library models the parts that decide those answers.
--
-- Model.antt      internal/engine/parser/types.go: a parsed file, its imports and definitions.
-- Text.antt       the functions of Go's strings and path/filepath that the code calls, as parameters.
-- Cache.antt      internal/engine/graph/lru.go: the cache of parsed files (`LRUCache`). Cache/Invariant
--                 has its well-formedness and its abstract view, a recency list; Cache/Refine and
--                 Cache/Resize relate each method to an operation on that list.
-- Graph.antt      internal/engine/graph/graph.go: the state. Graph/Update models `AddFile` and
--                 `RemoveFile` on the files, symbols (Graph/Symbols) and edges (Graph/Links), and
--                 Graph/Files `GetFile`, `GetModule` and the dirty files. Graph/Cycles models
--                 `DetectCycles` and Graph/Chain `FindImportChain` of internal/engine/graph/detect.go.
--                 Graph/Impact models `AnalyzeImpact` of internal/engine/graph/impact.go and
--                 `InvalidateTransitive` of internal/engine/graph/detect.go, and Graph/Hotspots
--                 `TopComplexity` of internal/engine/graph/metrics.go.
-- Query.antt      internal/data/query/service.go and internal/data/query/cql.go: `ListModules`,
--                 `ExecuteCQL` with its conditions (Query/Cql), `ModuleDetails` (Query/Details),
--                 `DependencyTrace` (Query/Trace) and `TrendSlice` (Query/Trends).
-- Layers.antt     internal/engine/graph/architecture.go: the rules for imports between layers. Layers/Paths
--                 models the path functions of internal/shared/util/util.go.
-- Packages.antt   internal/engine/architecture/rules.go and internal/engine/architecture/evaluator.go: the
--                 rules for packages, on file counts (Packages/Counts) and imports.
-- Unused.antt     internal/engine/resolver/unused_imports.go: `FindUnusedImports`; Unused/Names models
--                 `ModuleReferenceBase` of internal/engine/parser/extractor_common.go.
-- Config.antt     internal/core/config/validator.go and internal/core/config/helpers/validators.go: the
--                 checks of a configuration (Config/Types: internal/core/config/config.go), and the
--                 defaults of its sections (Config/Sections).
-- Tools.antt      internal/mcp/validate/args.go: the arguments of a tool call, and
--                 internal/mcp/runtime/allowlist.go: which operations may run.
-- Queue.antt      internal/data/queue/memory_queue.go: the bounded queue of writes, and the requests
--                 of internal/core/ports/ports.go.
-- Spool.antt      internal/data/queue/sqlite_spool.go: the table of writes that wait on disk.
-- Worker.antt     internal/core/app/write_worker.go: the worker between queue, spool and symbol store.
--                 Worker/Enqueue is about `enqueueSymbolWrite`, Worker/Rounds and Worker/Turns about
--                 the turns of `runWriteWorker`, Worker/Drain about `drainWriteQueue`, Worker/Backoff
--                 about `backoffDelay`.
-- Secrets.antt    internal/engine/secrets/detector.go: the line ranges that a scan reads, and the line
--                 and column of what it finds (Secrets/Position).
--
-- The graph holds the cache; `AddFile` and `RemoveFile` read files through it, so a file that it evicted
-- is skipped when a module is rebuilt. The detectors and the queries only read the graph; a trace is a
-- chain of `FindImportChain` with a bound on its depth.
--
-- A write goes to the queue, or to the spool if the queue is full, or to the store at once. A turn of
-- the worker takes a batch from the queue, fills it up from the spool and applies it in one
-- transaction; a batch that fails goes to the spool. The worker takes the spool and the store as a
-- record of operations (`Ports`); the records `IsSpool` and `IsPending` say what it relies on in the
-- spool, and Spool/Laws and Spool/Pending are about the table of Spool.antt as such a spool. Which case
-- a `select` takes (a request, a timer, a cancelled context) is an argument.
-- A database that fails is the `none` of a port.
--
-- The layer rules read the modules and the imports of the graph, the package rules each module's files
-- and imports. Both come from a configuration that Config.antt checks, and so do the settings of the
-- worker and the operations that the tools allow. An error is its kind with what its message quotes.
-- Parameters stand for the code that is not in the repository: the glob library and the functions that
-- clean a path (`PathText`, `GoPath`), those that trim and fold a string (`GoText`), the regular
-- expressions of the query language (`CqlGrammar`), the history store of `TrendSlice`, those that split a module's name (`Splits`), and
-- the decoder of the tool arguments.
-- A threshold of the configuration that is a floating-point number is known by its comparisons.
--
-- A mutex guards each type, so a method is one step: a function on the state. A Go map is an
-- association list (Prelude/Map); where the source ranges over a map in any order, the model takes the
-- list's order. An `int` that the source never makes negative is a natural number; the counts stay far
-- below its bounds. An `int` that a caller may make negative is an integer. The delay of a retry, which
-- the source doubles, is the 64 bits of its `int64` and wraps. A write to a nil map, which
-- panics, is `none`.
--
-- The loop of `SetCapacity` has one round for each entry. The loop of `DetectCycles` has a round for
-- each module and each neighbour and one more for each module, which is its fuel. The search of
-- `FindImportChain` has a round for each module, and its way back a step for each note. The searches of
-- Graph/Impact have a round for each start and each name in a row of `importedBy`. The loop of
-- `drainWriteQueue` has a round for each request in the queue and each row of the spool, and one more.
-- The loop of the worker itself never ends; its turns are modelled.
--
-- Not modelled: the parsers and extractors; the resolver's cascade, bridges and candidates; the symbol
-- store and other storage; the deltas and averages of the history; the pattern search of the secret
-- scan, which is regular expressions and floating-point entropy; the importance of modules and their
-- metrics, of which the queries take the result as an argument; the file watcher; the transports and
-- the user interfaces.
mod Prelude
pub mod Cache
pub mod Config
pub mod Graph
pub mod Layers
pub mod Model
pub mod Packages
pub mod Query
pub mod Queue
pub mod Secrets
pub mod Spool
pub mod Text
pub mod Tools
pub mod Unused
pub mod Worker
