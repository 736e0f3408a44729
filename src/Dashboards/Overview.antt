-- ===== src/Dashboards/Overview.antt =====
-- The definition of `overview.json` in `dashboards` of tools/dashboardgen/main.go.
use slurm_insights_exporter.Prelude.{[], ◌∷◌, codes}
use slurm_insights_exporter.Dashboards.{DashboardDef, panel, q}

unfoldable pub overview_dashboard : DashboardDef
overview_dashboard = record {
  file = codes "overview.json";
  uid = codes "slurm-overview";
  title = codes "Slurm / Cluster Overview";
  panels =
      panel (codes "Exporter Up") (codes "stat") (codes "none")
        (q (codes "min(slurm_exporter_up)") (codes "Exporter"))
        (codes "All collectors succeeded on the latest snapshot.")
      ∷ panel (codes "CPU Utilization") (codes "gauge") (codes "percent")
          (q
            (codes
              "100 * sum(max by (cluster, node) (slurm_node_cpu_count{cluster=~\"$cluster\",status=\"allocated\"})) / clamp_min(sum(max by (cluster, node) (slurm_node_cpu_count{cluster=~\"$cluster\",status=\"total\"})), 1)")
            (codes "CPU"))
          (codes
            "Allocated CPUs as a percentage of configured CPUs, deduplicated for nodes in multiple partitions.")
      ∷ panel (codes "Memory Utilization") (codes "gauge") (codes "percent")
          (q
            (codes
              "100 * sum(max by (cluster, node) (slurm_node_allocated_memory_bytes{cluster=~\"$cluster\"})) / clamp_min(sum(max by (cluster, node) (slurm_node_memory_bytes{cluster=~\"$cluster\"})), 1)")
            (codes "Memory"))
          (codes "Slurm allocated memory divided by configured memory, deduplicated by node.")
      ∷ panel (codes "GPU Allocation") (codes "gauge") (codes "percent")
          (q
            (codes
              "100 * sum(max by (cluster, node) (slurm_node_gpus{cluster=~\"$cluster\",status=\"allocated\"})) / clamp_min(sum(max by (cluster, node) (slurm_node_gpus{cluster=~\"$cluster\",status=\"total\"})), 1)")
            (codes "GPU"))
          (codes "Allocated GPUs divided by configured GPUs, deduplicated by node.")
      ∷ panel (codes "Jobs by State") (codes "timeseries") (codes "short")
          (q (codes "sum by (state) (slurm_queue_jobs{cluster=~\"$cluster\"})") (codes "{{state}}"))
          (codes "Live queue state history.")
      ∷ panel (codes "Nodes by State") (codes "timeseries") (codes "short")
          (q
            (codes
              "sum by (state) (max by (cluster, node, state) (slurm_node_info{cluster=~\"$cluster\"}))")
            (codes "{{state}}"))
          (codes "Node state history, deduplicated for multi-partition membership.")
      ∷ panel (codes "CPU Disposition") (codes "timeseries") (codes "short")
          (q
            (codes
              "sum by (status) (max by (cluster, node, status) (slurm_node_cpu_count{cluster=~\"$cluster\"}))")
            (codes "{{status}}"))
          (codes "Allocated, idle, other, and total CPUs, deduplicated by node.")
      ∷ panel (codes "Pending Reasons") (codes "bargauge") (codes "short")
          (q (codes "sum by (reason) (slurm_queue_jobs{cluster=~\"$cluster\",state=\"PENDING\"})")
            (codes "{{reason}}"))
          (codes "Current pending jobs grouped by Slurm reason.")
      ∷ panel (codes "Total CPUs") (codes "stat") (codes "short")
          (q
            (codes
              "sum(slurm_cluster_tres{cluster=~\"$cluster\",resource=\"cpu\",status=\"total\"})")
            (codes "total"))
          (codes "Configured CPU TRES across the cluster.")
      ∷ panel (codes "Available CPUs") (codes "stat") (codes "short")
          (q
            (codes
              "sum(slurm_cluster_tres{cluster=~\"$cluster\",resource=\"cpu\",status=\"available\"})")
            (codes "available"))
          (codes "Configured CPU TRES minus allocated CPU TRES.")
      ∷ panel (codes "Available Memory") (codes "stat") (codes "bytes")
          (q
            (codes
              "sum(slurm_cluster_tres{cluster=~\"$cluster\",resource=\"mem\",status=\"available\"})")
            (codes "available"))
          (codes "Configured memory TRES minus allocated memory TRES.")
      ∷ panel (codes "All Trackable Resources") (codes "table") (codes "short")
          (q
            (codes
              "sum by (resource, status) (slurm_cluster_tres{cluster=~\"$cluster\",resource=~\"$resource\"})")
            (codes "{{resource}} / {{status}}"))
          (codes
            "All CfgTRES and AllocTRES resources. Memory values are bytes; other resources use native Slurm counts.")
      ∷ [];
}
