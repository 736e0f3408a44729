-- ===== src/Dashboards/Jobs.antt =====
-- The definition of `jobs.json` in `dashboards` of tools/dashboardgen/main.go.
use slurm_insights_exporter.Prelude.{[], ◌∷◌, codes}
use slurm_insights_exporter.Dashboards.{DashboardDef, panel, q}

unfoldable pub jobs_dashboard : DashboardDef
jobs_dashboard = record {
  file = codes "jobs.json";
  uid = codes "slurm-jobs";
  title = codes "Slurm / Jobs & Queue";
  panels =
      panel (codes "Queue Jobs") (codes "timeseries") (codes "short")
        (q
          (codes
            "sum by (state) (slurm_queue_jobs{cluster=~\"$cluster\",partition=~\"$partition\",account=~\"$account\",qos=~\"$qos\"})")
          (codes "{{state}}"))
        (codes "Jobs across all live states.")
      ∷ panel (codes "Queue CPUs") (codes "timeseries") (codes "short")
          (q
            (codes
              "sum by (state) (slurm_queue_cpus{cluster=~\"$cluster\",partition=~\"$partition\",account=~\"$account\",qos=~\"$qos\"})")
            (codes "{{state}}"))
          (codes "Requested or allocated CPUs.")
      ∷ panel (codes "Queue GPUs") (codes "timeseries") (codes "short")
          (q
            (codes
              "sum by (state) (slurm_queue_gpus{cluster=~\"$cluster\",partition=~\"$partition\",account=~\"$account\",qos=~\"$qos\"})")
            (codes "{{state}}"))
          (codes "Requested or allocated GPUs.")
      ∷ panel (codes "Queue Memory") (codes "timeseries") (codes "bytes")
          (q
            (codes
              "sum by (state) (slurm_queue_memory_bytes{cluster=~\"$cluster\",partition=~\"$partition\",account=~\"$account\",qos=~\"$qos\"})")
            (codes "{{state}}"))
          (codes "Requested or allocated memory.")
      ∷ panel (codes "Pending by Reason") (codes "bargauge") (codes "short")
          (q
            (codes
              "sum by (reason) (slurm_queue_jobs{cluster=~\"$cluster\",partition=~\"$partition\",account=~\"$account\",state=\"PENDING\"})")
            (codes "{{reason}}"))
          (codes "Resource, priority, dependency, and policy pressure.")
      ∷ panel (codes "Running Job CPU") (codes "table") (codes "short")
          (q
            (codes
              "slurm_job_cpus{cluster=~\"$cluster\",partition=~\"$partition\",account=~\"$account\"}")
            (codes "{{job_id}} {{job_name}} {{user}}"))
          (codes "Requires -metrics.per-job.")
      ∷ panel (codes "Running Job GPU") (codes "table") (codes "short")
          (q
            (codes
              "slurm_job_gpus{cluster=~\"$cluster\",partition=~\"$partition\",account=~\"$account\"}")
            (codes "{{job_id}} {{job_name}} {{user}}"))
          (codes "Requires -metrics.per-job.")
      ∷ panel (codes "Running Job Wait") (codes "table") (codes "s")
          (q
            (codes
              "slurm_job_wait_seconds{cluster=~\"$cluster\",partition=~\"$partition\",account=~\"$account\"}")
            (codes "{{job_id}} {{job_name}} {{user}}"))
          (codes "Submit-to-start time; requires -metrics.per-job.")
      ∷ [];
}
