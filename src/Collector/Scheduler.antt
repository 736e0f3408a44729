-- ===== src/Collector/Scheduler.antt =====
-- The collector `diagnostics` of internal/slurm/collector.go.
use slurm_insights_exporter.Prelude.{
  ℕ, Bool, ◌||◌, List, [], ◌∷◌, ◌++◌, Option, none, some, Text, Dict, codes, text_eq, lookup, ◌==◌,
  if◌then◌else◌,
}
use slurm_insights_exporter.Float.{Float}
use slurm_insights_exporter.Model.{Sample}
use slurm_insights_exporter.Strings.{trim_space, split, cut, has_suffix}
use slurm_insights_exporter.Parse.{is_digit, span, number}
use slurm_insights_exporter.Collector.{Config, Outcome, sample}
use slurm_insights_exporter.Collector.Shared.{Runner, command, only_samples}

-- `\s` of a regular expression.
abbrev pub is_blank : ℕ → Bool
is_blank c = c == 9 || c == 10 || c == 12 || c == 13 || c == 32

-- `\s*([^:]+)` before a colon: the label without the blanks in front, or its last blank if it has
-- nothing else.
unfoldable pub diag_label : Text → Text
diag_label [] = []
diag_label (c ∷ []) = c ∷ []
diag_label (c ∷ d ∷ s) = if is_blank c then diag_label (d ∷ s) else c ∷ d ∷ s

unfoldable pub diag_number : Text → Text → Option (Text × Text)
diag_number label rest =
    let digits = (span (λ c. is_digit c || c == b'.') (span is_blank rest).1).0 in
    if text_eq label [] || text_eq digits [] then none else some (label, digits)

-- `diagLine.FindStringSubmatch`: the label and the digits of `^\s*([^:]+):\s*([0-9.]+)`.
unfoldable pub diag_line : Text → Option (Text × Text)
diag_line line = elim (cut b':' line) [
  | none ↦ none
  | some (label, rest) ↦ diag_number (diag_label label) rest
]

abbrev pub mapping : Dict Text
mapping =
    (codes "Server thread count", codes "controller_server_threads")
    ∷ (codes "Agent queue size", codes "controller_agent_queue_size")
    ∷ (codes "Agent count", codes "controller_agents")
    ∷ (codes "DBD Agent queue size", codes "controller_dbd_agent_queue_size")
    ∷ (codes "Jobs submitted", codes "controller_jobs_submitted_total")
    ∷ (codes "Jobs started", codes "controller_jobs_started_total")
    ∷ (codes "Jobs completed", codes "controller_jobs_completed_total")
    ∷ (codes "Jobs canceled", codes "controller_jobs_canceled_total")
    ∷ (codes "Jobs failed", codes "controller_jobs_failed_total")
    ∷ (codes "Last queue length", codes "scheduler_last_queue_length")
    ∷ (codes "Cycles per minute", codes "scheduler_cycles_per_minute")
    ∷ (codes "Total backfilled jobs (since last slurm start)", codes "backfill_jobs_total")
    ∷ (
      codes "Total backfilled jobs (since last stats cycle start)",
      codes "backfill_jobs_since_reset",
    )
    ∷ (codes "Last depth cycle", codes "backfill_last_depth")
    ∷ (codes "Last depth cycle (try sched)", codes "backfill_last_depth_try_sched")
    ∷ (codes "Depth Mean", codes "backfill_depth_mean")
    ∷ (codes "Last table size", codes "backfill_last_table_size")
    ∷ (codes "Mean table size", codes "backfill_mean_table_size")
    ∷ []

module _ {F : Type 0} ⦃fl : Float F⦄ where
  unfoldable pub diag_sample : Config → Text → Text → Option Text → List (Sample F)
  diag_sample cfg label digits none = []
  diag_sample cfg label digits (some n) =
      sample n (codes "Slurm controller diagnostic: " ++ label)
        (if has_suffix n (codes "_total") then codes "counter" else codes "gauge") (number digits)
        ((codes "cluster", cfg.cluster) ∷ [])
      ∷ []

  unfoldable pub diag_samples : Config → Option (Text × Text) → List (Sample F)
  diag_samples cfg none = []
  diag_samples cfg (some (label, digits)) =
      diag_sample cfg label digits (lookup (trim_space label) mapping)

  unfoldable pub read_diagnostics : Config → List Text → List (Sample F)
  read_diagnostics cfg [] = []
  read_diagnostics cfg (l ∷ ls) = diag_samples cfg (diag_line l) ++ read_diagnostics cfg ls

  unfoldable pub diagnostics : {W : Type 0} → Runner W → Config → W → Outcome F × W
  diagnostics runner cfg =
      command runner cfg (codes "sdiag") []
        (λ b. only_samples (read_diagnostics cfg (split b'\n' b)))
