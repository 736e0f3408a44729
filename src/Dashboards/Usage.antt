-- ===== src/Dashboards/Usage.antt =====
-- The definition of `accounting.json` in `dashboards` of tools/dashboardgen/main.go.
use slurm_insights_exporter.Prelude.{[], ◌∷◌, codes}
use slurm_insights_exporter.Dashboards.{DashboardDef, panel, q}

unfoldable pub accounting_dashboard : DashboardDef
accounting_dashboard = record {
  file = codes "accounting.json";
  uid = codes "slurm-accounting";
  title = codes "Slurm / Accounting & Efficiency";
  panels =
      panel (codes "Weighted CPU Efficiency") (codes "gauge") (codes "percent")
        (q
          (codes
            "100 * sum(slurm_accounting_cpu_seconds{cluster=~\"$cluster\",partition=~\"$partition\",account=~\"$account\",qos=~\"$qos\"}) / clamp_min(sum(slurm_accounting_cpu_capacity_seconds{cluster=~\"$cluster\",partition=~\"$partition\",account=~\"$account\",qos=~\"$qos\"}), 1)")
          (codes "CPU efficiency"))
        (codes "seff-style consumed CPU divided by allocated core-walltime.")
      ∷ panel (codes "Weighted Memory Efficiency") (codes "gauge") (codes "percent")
          (q
            (codes
              "100 * sum(slurm_accounting_max_rss_bytes{cluster=~\"$cluster\",partition=~\"$partition\",account=~\"$account\",qos=~\"$qos\"}) / clamp_min(sum(slurm_accounting_requested_memory_bytes{cluster=~\"$cluster\",partition=~\"$partition\",account=~\"$account\",qos=~\"$qos\"}), 1)")
            (codes "Memory efficiency"))
          (codes "Maximum RSS divided by requested memory.")
      ∷ panel (codes "Jobs by Outcome") (codes "timeseries") (codes "short")
          (q
            (codes
              "sum by (state) (slurm_accounting_jobs{cluster=~\"$cluster\",partition=~\"$partition\",account=~\"$account\",qos=~\"$qos\"})")
            (codes "{{state}}"))
          (codes "Jobs within the configured accounting window.")
      ∷ panel (codes "CPU Efficiency by Account") (codes "bargauge") (codes "percentunit")
          (q
            (codes
              "sum by (account) (slurm_accounting_cpu_seconds{cluster=~\"$cluster\",account=~\"$account\"}) / clamp_min(sum by (account) (slurm_accounting_cpu_capacity_seconds{cluster=~\"$cluster\",account=~\"$account\"}), 1)")
            (codes "{{account}}"))
          (codes "Weighted account efficiency.")
      ∷ panel (codes "Memory Efficiency by Account") (codes "bargauge") (codes "percentunit")
          (q
            (codes
              "sum by (account) (slurm_accounting_max_rss_bytes{cluster=~\"$cluster\",account=~\"$account\"}) / clamp_min(sum by (account) (slurm_accounting_requested_memory_bytes{cluster=~\"$cluster\",account=~\"$account\"}), 1)")
            (codes "{{account}}"))
          (codes "Weighted memory efficiency.")
      ∷ panel (codes "Energy by Account") (codes "timeseries") (codes "joule")
          (q
            (codes
              "sum by (account) (slurm_accounting_energy_joules{cluster=~\"$cluster\",account=~\"$account\"})")
            (codes "{{account}}"))
          (codes "Accounting-window energy; requires energy accounting.")
      ∷ panel (codes "CPU Capacity Seconds") (codes "timeseries") (codes "s")
          (q
            (codes
              "sum by (account) (slurm_accounting_cpu_capacity_seconds{cluster=~\"$cluster\",account=~\"$account\"})")
            (codes "{{account}}"))
          (codes "Allocated core-walltime.")
      ∷ [];
}
