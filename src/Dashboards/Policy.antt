-- ===== src/Dashboards/Policy.antt =====
-- The definition of `policy.json` in `dashboards` of tools/dashboardgen/main.go.
use slurm_insights_exporter.Prelude.{[], ◌∷◌, codes}
use slurm_insights_exporter.Dashboards.{DashboardDef, panel, q}

unfoldable pub policy_dashboard : DashboardDef
policy_dashboard = record {
  file = codes "policy.json";
  uid = codes "slurm-policy";
  title = codes "Slurm / Fair Share & Limits";
  panels =
      panel (codes "Fair-share Factor") (codes "timeseries") (codes "none")
        (q (codes "slurm_fairshare_factor{cluster=~\"$cluster\",account=~\"$account\"}")
          (codes "{{account}} {{user}}"))
        (codes "Fair-share factor by association.")
      ∷ panel (codes "Normalized Shares vs Effective Usage") (codes "timeseries")
          (codes "percentunit")
          (record {
            expr =
                codes
                  "slurm_fairshare_normalized_shares{cluster=~\"$cluster\",account=~\"$account\"}";
            legend = codes "shares {{account}} {{user}}";
          }
            ∷ record {
              expr =
                  codes
                    "slurm_fairshare_effective_usage{cluster=~\"$cluster\",account=~\"$account\"}";
              legend = codes "usage {{account}} {{user}}";
            }
            ∷ [])
          (codes "Allocation versus effective usage.")
      ∷ panel (codes "Raw Usage") (codes "timeseries") (codes "short")
          (q (codes "slurm_fairshare_raw_usage{cluster=~\"$cluster\",account=~\"$account\"}")
            (codes "{{account}} {{user}}"))
          (codes "Raw association usage.")
      ∷ panel (codes "Account CPU Limits") (codes "table") (codes "short")
          (q (codes "slurm_account_cpu_limit{cluster=~\"$cluster\",account=~\"$account\"}")
            (codes "{{account}}"))
          (codes "Zero means unlimited.")
      ∷ panel (codes "Account Memory Limits") (codes "table") (codes "bytes")
          (q (codes "slurm_account_memory_limit_bytes{cluster=~\"$cluster\",account=~\"$account\"}")
            (codes "{{account}}"))
          (codes "Zero means unlimited.")
      ∷ panel (codes "Account Job Limits") (codes "table") (codes "short")
          (record {
            expr =
                codes
                  "slurm_account_running_job_limit{cluster=~\"$cluster\",account=~\"$account\"}";
            legend = codes "running {{account}}";
          }
            ∷ record {
              expr =
                  codes
                    "slurm_account_submitted_job_limit{cluster=~\"$cluster\",account=~\"$account\"}";
              legend = codes "submitted {{account}}";
            }
            ∷ [])
          (codes "Concurrent and submitted job limits.")
      ∷ [];
}
