-- ===== src/Lib.antt =====
-- A model of the Slurm exporter and of what makes it correct. The exporter runs Slurm's commands,
-- turns their output into samples and job records, serves them as a Prometheus text and as JSON, and
-- keeps an append-only history with a hash chain.
--
-- The parts, and the files that model them:
-- - internal/slurm/model.go: `Sample`, `JobRecord` and `Snapshot` are records of Model.
-- - internal/slurm/parse.go: `lines`, `number`, `duration`, `baseState`, `clean`, `parseBytes` and
--   `memoryAllocation` are the functions of those names in Parse, in snake case; `gpuCount` is
--   `gpu_count` of Parse/Gpu. The two regular expressions are matched by hand. Strings has what the
--   source calls of Go's `strings`.
-- - internal/slurm/collector.go: `Config`, `slow`, `Collect` and `Validate` are in Collector, the list
--   of the ten collectors in Collector/Schedule. The collectors are `nodes`, `partitions` and
--   `fairshare` of Collector/Inventory, `queue` of Collector/Queue, `accounting` of
--   Collector/Accounting, `tres_profiles` of Collector/Tres, `reservations`, `licenses` and
--   `account_limits` of Collector/Limits, and `diagnostics` of Collector/Scheduler; `keyValues` and its
--   kin are in Collector/KeyValues. A collector reads the output of one command (`command` of
--   Collector/Shared); the runner is a parameter.
--   `Collect` is modelled twice: `collect` of Collector runs the collectors in the order of a list, and
--   Collector/Pool has its goroutines, each with its local variables, in which every access to
--   `slowData` under the lock, every run of a collector and every send is a step of its own; the
--   world outside moves freely between two steps. `snapshot_of` is what the receiver makes of the
--   channel, for both; Collector/Pool/Ordered compares the two.
--   Collector/Catalog is an independent list of the metrics with their types and label names.
-- - internal/slurm/runner.go: `ExecRunner` is `exec_runner` of Collector/Exec, over `exec.Cmd.Run`.
-- - internal/slurm/cache.go: `Cache`, `NewCache` and `Get` are in Cache. `Get` runs `Collect` in a
--   world with a clock.
-- - internal/slurm/render.go: `RenderPrometheus` is `render_prometheus` of Render; Render/Page lists the
--   lines of its text, and Server/Page those of the whole page.
-- - internal/history/store.go: `Open`, `AppendSnapshot`, `append`, `saveState` and `Status` are
--   `open_store`, `append_snapshot`, `append`, `save_state` and `status` of History. The directory is
--   part of the store's state: its lines, its state file and the outcomes of the operations to come.
-- - cmd/slurm-insights-exporter/main.go: `env`, `durationEnv` and what the handlers render are in
--   Server; the registered handlers, with their calls of the cache and their replies, are `registered`
--   and `handle` of Server/Http; the settings, the check of the configuration and the opening of the
--   archive are `settings` and `startup` of Server/Startup; Server/Process composes the collector, the
--   cache, the handlers and the archive to a process that answers requests, writes its archive and is
--   restarted.
-- - tools/dashboardgen/main.go: `build`, `options` and `variable` with the types of the definitions are
--   in Dashboards, and the definitions of the eight dashboards in the files under it, gathered in
--   Dashboards/Files. What is built is a JSON value. `main` is `generate` of Dashboards/Generate, over
--   an interface of a file system.
--
-- Choices of the model. A text is a list of code points, and upper and lower case are those of ASCII
-- with the foldings that the source's patterns meet. float64 is the interface `Float`; laws on it are
-- named where a theorem needs one. A time is a number of nanoseconds since Go's zero time, a duration
-- an integer that saturates as `Sub` does; `Add` with a negative window is exact for results that are
-- not before the zero time. A map is an association list in the order of first insertion, which stands
-- for Go's unordered iteration. `sort.Slice` is any function with its contract (Sorting); the
-- tests take an insertion sort. An error is its message. A sequence number wraps at 2 ^ 64. The search
-- for GPU matches has the text's length plus one as fuel, and each round takes a character.
-- In `collect` the collectors run in the order of a list, which stands for the order in which they
-- finish; a run of Collector/Pool has the steps of its goroutines in any order. A mutex makes a call of
-- the cache or of the store one step: in Server/Process the archive's `write` is two steps, the call of
-- the cache and that of the store, with requests and restarts between them, and a request is one step.
-- A context is no value of the model: a command that a timeout or a request that is gone ends is one
-- that fails in its world.
--
-- Not modelled: the parsing of the command line, the timer and the listening of
-- cmd/slurm-insights-exporter/main.go, which only call Go's packages, and all that is under deploy,
-- packaging and scripts. `http.ServeMux`, JSON, SHA-256, the file system, `exec.Cmd`, `strconv.Quote`,
-- `strconv.Atoi` and `time`'s formats are parameters.
pub mod Cache
pub mod Clock
pub mod Collector
pub mod Dashboards
pub mod Float
pub mod History
pub mod Model
pub mod Parse
pub mod Prelude
pub mod Render
pub mod Server
pub mod Sorting
pub mod Strings
pub mod Tests
