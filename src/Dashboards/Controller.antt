-- ===== src/Dashboards/Controller.antt =====
-- The definition of `scheduler.json` and `resources.json` in `dashboards` of tools/dashboardgen/main.go.
use slurm_insights_exporter.Prelude.{[], ◌∷◌, codes}
use slurm_insights_exporter.Dashboards.{DashboardDef, panel, q}

unfoldable pub scheduler_dashboard : DashboardDef
scheduler_dashboard = record {
  file = codes "scheduler.json";
  uid = codes "slurm-scheduler";
  title = codes "Slurm / Scheduler & Controller";
  panels =
      panel (codes "Server Threads") (codes "timeseries") (codes "short")
        (q (codes "slurm_controller_server_threads{cluster=~\"$cluster\"}") (codes "threads"))
        (codes "Active slurmctld server threads.")
      ∷ panel (codes "Agent Queues") (codes "timeseries") (codes "short")
          (record {
            expr = codes "slurm_controller_agent_queue_size{cluster=~\"$cluster\"}";
            legend = codes "agent";
          }
            ∷ record {
              expr = codes "slurm_controller_dbd_agent_queue_size{cluster=~\"$cluster\"}";
              legend = codes "DBD agent";
            }
            ∷ [])
          (codes "Controller agent and database delivery backlogs.")
      ∷ panel (codes "Scheduler Queue Length") (codes "timeseries") (codes "short")
          (q (codes "slurm_scheduler_last_queue_length{cluster=~\"$cluster\"}") (codes "queue"))
          (codes "Jobs examined in the latest scheduler queue.")
      ∷ panel (codes "Cycles per Minute") (codes "timeseries") (codes "short")
          (q (codes "slurm_scheduler_cycles_per_minute{cluster=~\"$cluster\"}")
            (codes "cycles/min"))
          (codes "Scheduler activity.")
      ∷ panel (codes "Job Event Rates") (codes "timeseries") (codes "ops")
          (record {
            expr = codes "rate(slurm_controller_jobs_submitted_total{cluster=~\"$cluster\"}[5m])";
            legend = codes "submitted";
          }
            ∷ record {
              expr = codes "rate(slurm_controller_jobs_started_total{cluster=~\"$cluster\"}[5m])";
              legend = codes "started";
            }
            ∷ record {
              expr = codes "rate(slurm_controller_jobs_completed_total{cluster=~\"$cluster\"}[5m])";
              legend = codes "completed";
            }
            ∷ record {
              expr = codes "rate(slurm_controller_jobs_failed_total{cluster=~\"$cluster\"}[5m])";
              legend = codes "failed";
            }
            ∷ [])
          (codes "Controller counters converted to rates.")
      ∷ panel (codes "Backfill Jobs") (codes "timeseries") (codes "short")
          (q (codes "slurm_backfill_jobs_total{cluster=~\"$cluster\"}") (codes "jobs"))
          (codes "Jobs started through backfill.")
      ∷ panel (codes "Backfill Depth") (codes "timeseries") (codes "short")
          (record {
            expr = codes "slurm_backfill_last_depth{cluster=~\"$cluster\"}";
            legend = codes "last depth";
          }
            ∷ record {
              expr = codes "slurm_backfill_last_depth_try_sched{cluster=~\"$cluster\"}";
              legend = codes "try sched";
            }
            ∷ record {
              expr = codes "slurm_backfill_depth_mean{cluster=~\"$cluster\"}";
              legend = codes "mean";
            }
            ∷ [])
          (codes "Backfill work depth.")
      ∷ [];
}

unfoldable pub resources_dashboard : DashboardDef
resources_dashboard = record {
  file = codes "resources.json";
  uid = codes "slurm-resources";
  title = codes "Slurm / Reservations & Licenses";
  panels =
      panel (codes "Reservations") (codes "table") (codes "none")
        (q (codes "slurm_reservation_info{cluster=~\"$cluster\"}")
          (codes "{{reservation}} {{partition}} {{state}}"))
        (codes "Reservation inventory.")
      ∷ panel (codes "Reserved Nodes") (codes "timeseries") (codes "short")
          (q (codes "slurm_reservation_nodes{cluster=~\"$cluster\"}") (codes "{{reservation}}"))
          (codes "Node allocation by reservation.")
      ∷ panel (codes "Reserved Cores") (codes "timeseries") (codes "short")
          (q (codes "slurm_reservation_cores{cluster=~\"$cluster\"}") (codes "{{reservation}}"))
          (codes "Core allocation by reservation.")
      ∷ panel (codes "Reservation End") (codes "table") (codes "dateTimeAsIso")
          (q (codes "slurm_reservation_end_time_seconds{cluster=~\"$cluster\"} * 1000")
            (codes "{{reservation}}"))
          (codes "Reservation expiry.")
      ∷ panel (codes "Licenses") (codes "timeseries") (codes "short")
          (q (codes "slurm_license_count{cluster=~\"$cluster\"}")
            (codes "{{license}} / {{status}}"))
          (codes "Total, used, free, and reserved license counts.")
      ∷ panel (codes "License Utilization") (codes "bargauge") (codes "percent")
          (q
            (codes
              "100 * sum by (license) (slurm_license_count{cluster=~\"$cluster\",status=\"used\"}) / clamp_min(sum by (license) (slurm_license_count{cluster=~\"$cluster\",status=\"total\"}), 1)")
            (codes "{{license}}"))
          (codes "Current license saturation.")
      ∷ [];
}
