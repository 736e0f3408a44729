-- ===== src/Server.antt =====
-- cmd/slurm-insights-exporter/main.go: the settings from the environment and what the handlers
-- render. `atoi` is `strconv.Atoi` and `parse_duration` is `time.ParseDuration`, `none` being an error.
pub mod Jobs
pub mod Page
pub mod Http
pub mod Process
pub mod Startup
use slurm_insights_exporter.Prelude.{
  ℕ, ◌+◌, Bool, ◌&&◌, ◌||◌, not, List, [], ◌∷◌, ◌++◌, Option, none, some, Text, Dict, codes,
  text_eq, lookup, length, ltb, leb, ◌==◌, if◌then◌else◌, ℤ, pos, ltb_ℤ, pos_part,
}
use slurm_insights_exporter.Float.{Float}
use slurm_insights_exporter.Model.{Time, Snapshot, JobRecord}
use slurm_insights_exporter.Clock.{Duration, unix}
use slurm_insights_exporter.Strings.{to_upper}
use slurm_insights_exporter.Sorting.{SliceSort}
use slurm_insights_exporter.Cache.{Cache, get}
use slurm_insights_exporter.History.{Codec, Store, Status, status, append_snapshot}
use slurm_insights_exporter.Render.{render_prometheus, header, newline}

-- An unset variable reads as the empty text.
abbrev pub variable : Dict Text → Text → Text
variable vars k = elim (lookup k vars) [ none ↦ [] | some v ↦ v ]

unfoldable pub env : Dict Text → Text → Text → Text
env vars k d = let v = variable vars k in if not (text_eq v []) then v else d

unfoldable pub duration_env : (Text → Option Duration) → Dict Text → Text → Duration → Duration
duration_env parse_duration vars k d =
    let v = variable vars k in
    let parsed : Duration = elim (parse_duration v) [ none ↦ d | some x ↦ x ] in
    if text_eq v [] then d else parsed

-- The limit of a request: `none` is an error of `Atoi`.
unfoldable pub limit_of : Option ℤ → ℕ
limit_of parsed =
    let asked : ℕ = elim parsed [
      | none ↦ 1000
      | some n ↦ if ltb_ℤ (pos 0) n then pos_part n else 1000
    ] in
    if ltb 10_000 asked then 10_000 else asked

-- The conditions under which the loop over the jobs does not `continue`.
unfoldable pub is_wanted : {F : Type 0} → Text → Text → JobRecord F → Bool
is_wanted state account j =
    let wrong_state = not (text_eq state []) && not (text_eq j.state state) in
    let wrong_account = not (text_eq account []) && not (text_eq j.account account) in
    not wrong_state && not wrong_account

-- The loop over the jobs, with the jobs so far; it breaks once there are `limit` of them.
unfoldable pub select_jobs :
    {F : Type 0} → Text → Text → ℕ → List (JobRecord F) → List (JobRecord F) → List (JobRecord F)
select_jobs state account limit [] jobs = jobs
select_jobs state account limit (j ∷ js) jobs =
    let longer = jobs ++ j ∷ [] in
    let skip = select_jobs state account limit js jobs in
    let next = select_jobs state account limit js longer in
    if is_wanted state account j then if leb limit (length longer) then longer else next else skip

-- The answer of `/api/v1/jobs`.
pub record JobsReply (F : Type 0) : Type 0 where
  pub collected_at : Time
  pub count : ℕ
  pub jobs : List (JobRecord F)
  pub errors : List Text

unfoldable pub jobs_handler :
    {F : Type 0} → (Text → Option ℤ) → Text → Text → Text → Snapshot F → JobsReply F
jobs_handler atoi limit state account snap =
    let jobs = select_jobs (to_upper state) account (limit_of (atoi limit)) snap.jobs [] in
    record {
      collected_at = snap.collected_at;
      count = length jobs;
      jobs = jobs;
      errors = snap.errors;
    }

-- The answer of `/api/v1/history/status`: `none` is the status 404.
unfoldable pub history_handler : Option Store → Option Status
history_handler none = none
history_handler (some archive) = some (status archive)

-- The four values about the archive that `/metrics` adds.
pub record HistoryMetrics : Type 0 where
  pub enabled : ℕ
  pub sequence : ℕ
  pub tracked : ℕ
  pub last_write : ℤ

unfoldable pub history_metrics : Option Store → HistoryMetrics
history_metrics none = record { enabled = 0; sequence = 0; tracked = 0; last_write = pos 0 }
history_metrics (some archive) =
    let s = status archive in
    record {
      enabled = 1;
      sequence = s.sequence;
      tracked = s.tracked_jobs;
      last_write = if s.last_write == 0 then pos 0 else unix s.last_write;
    }

unfoldable pub metric : (ℤ → Text) → Text → Text → ℤ → Text
metric print name help value =
    header name help (codes "gauge") ++ name ++ b' ' ∷ print value ++ newline ∷ []

-- The answer of `/metrics`; `print` is `%d`.
unfoldable pub metrics_handler :
    {F : Type 0} ⦃fl : Float F⦄ → (Text → Text) → (ℤ → Text) → Snapshot F → Option Store → Text
metrics_handler quote print snap archive =
    let h = history_metrics archive in
    render_prometheus quote snap
    ++ metric print (codes "slurm_history_enabled")
        (codes "Whether the append-only history archive is enabled.") (pos h.enabled)
    ++ metric print (codes "slurm_history_sequence") (codes "Latest audit-chain sequence.")
        (pos h.sequence)
    ++ metric print (codes "slurm_history_tracked_jobs")
        (codes "Jobs indexed by the audit archive.") (pos h.tracked)
    ++ metric print (codes "slurm_history_last_write_timestamp_seconds")
        (codes "Unix timestamp of the latest archive write.") h.last_write
