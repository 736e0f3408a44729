-- ===== src/Dashboards/Capacity.antt =====
-- The definition of `capacity.json` in `dashboards` of tools/dashboardgen/main.go.
use slurm_insights_exporter.Prelude.{[], ◌∷◌, codes}
use slurm_insights_exporter.Dashboards.{DashboardDef, panel, q}

unfoldable pub capacity_dashboard : DashboardDef
capacity_dashboard = record {
  file = codes "capacity.json";
  uid = codes "slurm-capacity";
  title = codes "Slurm / Nodes & Partitions";
  panels =
      panel (codes "Partition CPUs") (codes "timeseries") (codes "short")
        (q
          (codes
            "sum by (partition, status) (slurm_partition_cpus{cluster=~\"$cluster\",partition=~\"$partition\"})")
          (codes "{{partition}} / {{status}}"))
        (codes "CPU disposition by partition.")
      ∷ panel (codes "Partition Nodes") (codes "timeseries") (codes "short")
          (q
            (codes
              "sum by (partition) (slurm_partition_nodes{cluster=~\"$cluster\",partition=~\"$partition\"})")
            (codes "{{partition}}"))
          (codes "Node capacity by partition.")
      ∷ panel (codes "Node CPU Load") (codes "timeseries") (codes "none")
          (q
            (codes
              "slurm_node_cpu_load{cluster=~\"$cluster\",partition=~\"$partition\",node=~\"$node\"}")
            (codes "{{node}}"))
          (codes "Slurm-reported load per selected node.")
      ∷ panel (codes "Node Free Memory") (codes "timeseries") (codes "bytes")
          (q
            (codes
              "slurm_node_free_memory_bytes{cluster=~\"$cluster\",partition=~\"$partition\",node=~\"$node\"}")
            (codes "{{node}}"))
          (codes "Reported free memory.")
      ∷ panel (codes "Node Allocated Memory") (codes "timeseries") (codes "bytes")
          (q
            (codes
              "slurm_node_allocated_memory_bytes{cluster=~\"$cluster\",partition=~\"$partition\",node=~\"$node\"}")
            (codes "{{node}}"))
          (codes "Memory assigned by Slurm.")
      ∷ panel (codes "Node GPUs") (codes "timeseries") (codes "short")
          (q
            (codes
              "slurm_node_gpus{cluster=~\"$cluster\",partition=~\"$partition\",node=~\"$node\"}")
            (codes "{{node}} / {{status}}"))
          (codes "Total and allocated GPUs.")
      ∷ panel (codes "Partition Time Limits") (codes "table") (codes "s")
          (q
            (codes
              "max by (partition) (slurm_partition_time_limit_seconds{cluster=~\"$cluster\",partition=~\"$partition\"})")
            (codes "{{partition}}"))
          (codes "Configured partition time limits.")
      ∷ panel (codes "Node Status Timeline") (codes "state-timeline") (codes "none")
          (q
            (codes
              "slurm_node_profile_assignment{cluster=~\"$cluster\",partitions=~\".*$partition.*\",node=~\"$node\"}")
            (codes "{{node}} / {{state}}"))
          (codes "Node state and profile assignment over time.")
      ∷ panel (codes "Node Profile Membership") (codes "table") (codes "none")
          (q
            (codes
              "slurm_node_profile_assignment{cluster=~\"$cluster\",profile=~\"$profile\",node=~\"$node\"}")
            (codes "{{node}} / {{profile}} / {{state}}"))
          (codes "Expected node shape inferred from normalized Slurm CfgTRES.")
      ∷ panel (codes "Profile Population by State") (codes "bargauge") (codes "short")
          (q
            (codes
              "sum by (profile, state) (slurm_node_profile_nodes{cluster=~\"$cluster\",profile=~\"$profile\"})")
            (codes "{{profile}} / {{state}}"))
          (codes "Highlights unusual or singleton node profiles and unhealthy states.")
      ∷ panel (codes "Expected TRES per Profile") (codes "table") (codes "short")
          (q
            (codes
              "slurm_node_profile_tres{cluster=~\"$cluster\",profile=~\"$profile\",resource=~\"$resource\"}")
            (codes "{{profile}} / {{resource}}"))
          (codes "Expected per-node resources derived from CfgTRES. Memory values are bytes.")
      ∷ [];
}
