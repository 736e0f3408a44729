-- ===== src/Server/Page.antt =====
-- The lines of the page `/metrics` of cmd/slurm-insights-exporter/main.go.
use slurm_insights_exporter.Prelude.{
  ◌≡◌, refl, sym, ◌∙◌, ap, subst, List, [], ◌∷◌, ◌++◌, Option, Text, codes, All, append_assoc,
  append-nil, Lacks, arith, ℤ, pos,
}
use slurm_insights_exporter.Float.{Float}
use slurm_insights_exporter.Model.{Snapshot}
use slurm_insights_exporter.Strings.{split}
use slurm_insights_exporter.History.{Store}
use slurm_insights_exporter.Render.{header, newline, render_prometheus}
use slurm_insights_exporter.Render.Lines.{
  Splits, Splits-nil, Splits-append, Splits-cons, header_lines, header-Splits,
}
use slurm_insights_exporter.Render.Rows.{IsRow, IsPlain}
use slurm_insights_exporter.Render.Page.{
  value_line, value_line-Lacks, snapshot_lines, render_prometheus-Splits,
}
use slurm_insights_exporter.Server.{HistoryMetrics, history_metrics, metric, metrics_handler}

module _ (print : ℤ → Text) where
  abbrev metric_lines : Text → Text → ℤ → List Text
  metric_lines name help value =
      header_lines name help (codes "gauge") ++ (value_line name (print value) ∷ [])

  metric-nested :
      (name help : Text) (value : ℤ)
      → metric print name help value
        ≡ header name help (codes "gauge") ++ (value_line name (print value) ++ newline ∷ [])
  unfolding metric
  metric-nested name help value = simp (append_assoc)

  metric-Splits :
      (name help : Text) (value : ℤ)
      → ((z : ℤ) → Lacks newline (print z))
      → Lacks newline name
      → Lacks newline help
      → Splits (metric print name help value) (metric_lines name help value)
  metric-Splits name help value prints n h =
      subst (λ t. Splits t (metric_lines name help value)) (sym (metric-nested name help value))
        (Splits-append (header-Splits name help (codes "gauge") n h (ground arith))
          (Splits-cons (value_line-Lacks name (print value) n (prints value)) Splits-nil))

  abbrev enabled_name : Text
  enabled_name = codes "slurm_history_enabled"

  abbrev enabled_help : Text
  enabled_help = codes "Whether the append-only history archive is enabled."

  abbrev sequence_name : Text
  sequence_name = codes "slurm_history_sequence"

  abbrev sequence_help : Text
  sequence_help = codes "Latest audit-chain sequence."

  abbrev tracked_name : Text
  tracked_name = codes "slurm_history_tracked_jobs"

  abbrev tracked_help : Text
  tracked_help = codes "Jobs indexed by the audit archive."

  abbrev write_name : Text
  write_name = codes "slurm_history_last_write_timestamp_seconds"

  abbrev write_help : Text
  write_help = codes "Unix timestamp of the latest archive write."

  -- The lines about the archive.
  abbrev pub history_lines : HistoryMetrics → List Text
  history_lines h =
      metric_lines enabled_name enabled_help (pos h.enabled)
      ++ metric_lines sequence_name sequence_help (pos h.sequence)
      ++ metric_lines tracked_name tracked_help (pos h.tracked)
      ++ metric_lines write_name write_help h.last_write

  abbrev history_text : HistoryMetrics → Text
  history_text h =
      metric print enabled_name enabled_help (pos h.enabled)
      ++ metric print sequence_name sequence_help (pos h.sequence)
      ++ metric print tracked_name tracked_help (pos h.tracked)
      ++ metric print write_name write_help h.last_write

  history-Splits :
      (h : HistoryMetrics)
      → ((z : ℤ) → Lacks newline (print z))
      → Splits (history_text h) (history_lines h)
  history-Splits h prints =
      Splits-append
        (Splits-append
          (Splits-append
            (metric-Splits enabled_name enabled_help _ prints (ground arith) (ground arith))
            (metric-Splits sequence_name sequence_help _ prints (ground arith) (ground arith)))
          (metric-Splits tracked_name tracked_help _ prints (ground arith) (ground arith)))
        (metric-Splits write_name write_help _ prints (ground arith) (ground arith))

module _ {F : Type 0} ⦃fl : Float F⦄ (quote : Text → Text) (print : ℤ → Text) where
  -- The lines of the page, of a snapshot and an archive.
  abbrev pub page_lines : Snapshot F → Option Store → List Text
  page_lines snap archive =
      snapshot_lines quote snap ++ history_lines print (history_metrics archive)

  metrics_handler-nested :
      (snap : Snapshot F) (archive : Option Store)
      → metrics_handler quote print snap archive
        ≡ render_prometheus quote snap ++ history_text print (history_metrics archive)
  unfolding metrics_handler
  metrics_handler-nested snap archive = simp (append_assoc)

  -- The page has exactly the lines of the snapshot's families, of the exporter's own metrics, of its
  -- errors and of the archive's metrics, and behind the last line break nothing, if the samples' names,
  -- types, helps and label names, the quoted texts and the printed numbers hold no line break.
  pub split-metrics_handler :
      (snap : Snapshot F) (archive : Option Store)
      → IsPlain F quote
      → ((z : ℤ) → Lacks newline (print z))
      → All IsRow snap.samples
      → split newline (metrics_handler quote print snap archive)
        ≡ page_lines snap archive ++ [] ∷ []
  split-metrics_handler snap archive plain prints rows =
      let h = history_metrics archive in
      let whole =
        Splits-append (render_prometheus-Splits quote snap plain rows)
          (history-Splits print h prints) in
      ap (split newline) (
        metrics_handler-nested snap archive
        ∙ sym (append-nil (render_prometheus quote snap ++ history_text print h)))
      ∙ whole.before []
      ∙ unfold split in refl
