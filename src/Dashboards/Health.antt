-- ===== src/Dashboards/Health.antt =====
-- The definition of `health.json` in `dashboards` of tools/dashboardgen/main.go.
use slurm_insights_exporter.Prelude.{[], ◌∷◌, codes}
use slurm_insights_exporter.Dashboards.{DashboardDef, panel, q}

unfoldable pub health_dashboard : DashboardDef
health_dashboard = record {
  file = codes "health.json";
  uid = codes "slurm-health";
  title = codes "Slurm / Exporter & Audit Health";
  panels =
      panel (codes "Exporter Up") (codes "stat") (codes "none")
        (q (codes "slurm_exporter_up") (codes "up")) (codes "One only when all collectors succeed.")
      ∷ panel (codes "Collection Duration") (codes "timeseries") (codes "s")
          (q (codes "slurm_exporter_collection_duration_seconds") (codes "snapshot"))
          (codes "Total uncached collection time.")
      ∷ panel (codes "Collector Success") (codes "timeseries") (codes "none")
          (q (codes "slurm_exporter_collector_success") (codes "{{collector}}"))
          (codes "Per-collector health.")
      ∷ panel (codes "Collector Duration") (codes "timeseries") (codes "s")
          (q (codes "slurm_exporter_collector_duration_seconds") (codes "{{collector}}"))
          (codes "Per-collector latency; cached slow collectors approach zero.")
      ∷ panel (codes "History Enabled") (codes "stat") (codes "none")
          (q (codes "slurm_history_enabled") (codes "history"))
          (codes "Append-only history configuration state.")
      ∷ panel (codes "Audit Sequence") (codes "stat") (codes "short")
          (q (codes "slurm_history_sequence") (codes "sequence"))
          (codes "Latest hash-chain sequence.")
      ∷ panel (codes "Tracked Jobs") (codes "stat") (codes "short")
          (q (codes "slurm_history_tracked_jobs") (codes "jobs"))
          (codes "Jobs indexed by the audit archive.")
      ∷ panel (codes "Archive Write Age") (codes "stat") (codes "s")
          (q (codes "time() - slurm_history_last_write_timestamp_seconds") (codes "age"))
          (codes "Seconds since the last successful archive write.")
      ∷ [];
}
