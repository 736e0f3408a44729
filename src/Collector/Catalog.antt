-- ===== src/Collector/Catalog.antt =====
-- The metrics that the collectors of internal/slurm/collector.go may report, with their types and the
-- names of their labels.
pub mod Rows
pub mod Readings
pub mod Diagnostics
pub mod Accounting
pub mod Tasks
pub mod Plain
pub mod Snapshots
use slurm_insights_exporter.Prelude.{
  ◌≡◌, Bool, true, false, if◌then◌else◌, ◌==◌, List, [], ◌∷◌, ◌++◌, map, some, Text, Dict, codes,
  lookup, keys, refl, Lacks, Bool-cases, inl, inr, arith,
}
use slurm_insights_exporter.Model.{Sample}
use slurm_insights_exporter.Collector.{Config}

-- Metrics of one type with the same label names.
abbrev under : Text → List Text → List Text → Dict (Text × List Text)
under kind labels names = map (λ n. (n, (kind, labels))) names

abbrev pub fairshare_label_names : Bool → List Text
fairshare_label_names false = codes "cluster" ∷ codes "account" ∷ []
fairshare_label_names true = codes "cluster" ∷ codes "account" ∷ codes "user" ∷ []

-- The type and the label names of a metric, by its name, and by whether users are named.
abbrev pub catalog_of : Bool → Dict (Text × List Text)
catalog_of users =
    under (codes "gauge") (codes "cluster" ∷ codes "partition" ∷ codes "availability" ∷ [])
      (codes "slurm_partition_nodes" ∷ codes "slurm_partition_time_limit_seconds" ∷ [])
    ++ under (codes "gauge")
        (codes "cluster" ∷ codes "partition" ∷ codes "availability" ∷ codes "status" ∷ [])
        (codes "slurm_partition_cpus" ∷ [])
    ++ under (codes "gauge")
        (codes "cluster" ∷ codes "node" ∷ codes "partition" ∷ codes "state" ∷ [])
        (codes "slurm_node_info"
          ∷ codes "slurm_node_cpus"
          ∷ codes "slurm_node_memory_bytes"
          ∷ codes "slurm_node_free_memory_bytes"
          ∷ codes "slurm_node_cpu_load"
          ∷ codes "slurm_node_allocated_memory_bytes"
          ∷ [])
    ++ under (codes "gauge")
        (codes "cluster" ∷ codes "node" ∷ codes "partition" ∷ codes "state" ∷ codes "status" ∷ [])
        (codes "slurm_node_cpu_count" ∷ codes "slurm_node_gpus" ∷ [])
    ++ under (codes "gauge") (fairshare_label_names users) (
        codes "slurm_fairshare_raw_shares"
        ∷ codes "slurm_fairshare_normalized_shares"
        ∷ codes "slurm_fairshare_raw_usage"
        ∷ codes "slurm_fairshare_effective_usage"
        ∷ codes "slurm_fairshare_factor"
        ∷ [])
    ++ under (codes "gauge")
        (codes "cluster"
          ∷ codes "state"
          ∷ codes "partition"
          ∷ codes "account"
          ∷ codes "qos"
          ∷ codes "reason"
          ∷ [])
        (codes "slurm_queue_jobs"
          ∷ codes "slurm_queue_nodes"
          ∷ codes "slurm_queue_cpus"
          ∷ codes "slurm_queue_elapsed_seconds"
          ∷ codes "slurm_queue_time_limit_seconds"
          ∷ codes "slurm_queue_memory_bytes"
          ∷ codes "slurm_queue_gpus"
          ∷ [])
    ++ under (codes "gauge")
        (codes "cluster"
          ∷ codes "job_id"
          ∷ codes "job_name"
          ∷ codes "user"
          ∷ codes "partition"
          ∷ codes "account"
          ∷ codes "nodelist"
          ∷ [])
        (codes "slurm_job_info"
          ∷ codes "slurm_job_nodes"
          ∷ codes "slurm_job_cpus"
          ∷ codes "slurm_job_memory_bytes"
          ∷ codes "slurm_job_gpus"
          ∷ codes "slurm_job_elapsed_seconds"
          ∷ codes "slurm_job_start_time_seconds"
          ∷ codes "slurm_job_wait_seconds"
          ∷ [])
    ++ under (codes "gauge")
        (codes "cluster" ∷ codes "node" ∷ codes "profile" ∷ codes "state" ∷ codes "partitions" ∷ [])
        (codes "slurm_node_profile_assignment" ∷ [])
    ++ under (codes "gauge")
        (codes "cluster" ∷ codes "node" ∷ codes "resource" ∷ codes "status" ∷ [])
        (codes "slurm_node_tres" ∷ [])
    ++ under (codes "gauge") (codes "cluster" ∷ codes "resource" ∷ codes "status" ∷ [])
        (codes "slurm_cluster_tres" ∷ [])
    ++ under (codes "gauge") (codes "cluster" ∷ codes "profile" ∷ codes "state" ∷ [])
        (codes "slurm_node_profile_nodes" ∷ [])
    ++ under (codes "gauge") (codes "cluster" ∷ codes "profile" ∷ codes "configuration" ∷ [])
        (codes "slurm_node_profile_info" ∷ [])
    ++ under (codes "gauge") (codes "cluster" ∷ codes "profile" ∷ codes "resource" ∷ [])
        (codes "slurm_node_profile_tres" ∷ [])
    ++ under (codes "gauge")
        (codes "cluster"
          ∷ codes "account"
          ∷ codes "partition"
          ∷ codes "qos"
          ∷ codes "state"
          ∷ codes "window"
          ∷ [])
        (codes "slurm_accounting_jobs"
          ∷ codes "slurm_accounting_allocated_cpus"
          ∷ codes "slurm_accounting_elapsed_seconds"
          ∷ codes "slurm_accounting_cpu_capacity_seconds"
          ∷ codes "slurm_accounting_cpu_seconds"
          ∷ codes "slurm_accounting_cpu_efficiency_ratio"
          ∷ codes "slurm_accounting_max_rss_bytes"
          ∷ codes "slurm_accounting_requested_memory_bytes"
          ∷ codes "slurm_accounting_energy_joules"
          ∷ codes "slurm_accounting_memory_efficiency_ratio"
          ∷ [])
    ++ under (codes "gauge")
        (codes "cluster" ∷ codes "reservation" ∷ codes "partition" ∷ codes "state" ∷ [])
        (codes "slurm_reservation_info"
          ∷ codes "slurm_reservation_nodes"
          ∷ codes "slurm_reservation_cores"
          ∷ codes "slurm_reservation_end_time_seconds"
          ∷ [])
    ++ under (codes "gauge")
        (codes "cluster" ∷ codes "license" ∷ codes "remote" ∷ codes "status" ∷ [])
        (codes "slurm_license_count" ∷ [])
    ++ under (codes "gauge") (codes "cluster" ∷ codes "account" ∷ []) (
        codes "slurm_account_cpu_limit"
        ∷ codes "slurm_account_memory_limit_bytes"
        ∷ codes "slurm_account_running_job_limit"
        ∷ codes "slurm_account_submitted_job_limit"
        ∷ [])
    ++ under (codes "gauge") (codes "cluster" ∷ []) (
        codes "slurm_controller_server_threads"
        ∷ codes "slurm_controller_agent_queue_size"
        ∷ codes "slurm_controller_agents"
        ∷ codes "slurm_controller_dbd_agent_queue_size"
        ∷ codes "slurm_scheduler_last_queue_length"
        ∷ codes "slurm_scheduler_cycles_per_minute"
        ∷ codes "slurm_backfill_jobs_since_reset"
        ∷ codes "slurm_backfill_last_depth"
        ∷ codes "slurm_backfill_last_depth_try_sched"
        ∷ codes "slurm_backfill_depth_mean"
        ∷ codes "slurm_backfill_last_table_size"
        ∷ codes "slurm_backfill_mean_table_size"
        ∷ [])
    ++ under (codes "gauge") (codes "collector" ∷ []) (
        codes "slurm_exporter_collector_success"
        ∷ codes "slurm_exporter_collector_duration_seconds"
        ∷ [])
    ++ under (codes "counter") (codes "cluster" ∷ []) (
        codes "slurm_controller_jobs_submitted_total"
        ∷ codes "slurm_controller_jobs_started_total"
        ∷ codes "slurm_controller_jobs_completed_total"
        ∷ codes "slurm_controller_jobs_canceled_total"
        ∷ codes "slurm_controller_jobs_failed_total"
        ∷ codes "slurm_backfill_jobs_total"
        ∷ [])

abbrev pub catalog : Config → Dict (Text × List Text)
catalog cfg = catalog_of cfg.include_users

abbrev pub metric_names : Config → List Text
metric_names cfg = keys (catalog cfg)

-- No line break is in the text.
unfoldable pub is_line : Text → Bool
is_line [] = true
is_line (c ∷ t) = if c == b'\n' then false else is_line t

-- The sample's name is in the catalog with the sample's type and label names, and its help is one line.
abbrev pub IsListed : Config → {F : Type 0} → Sample F → Type 0
IsListed cfg s =
    (lookup s.name (catalog cfg) ≡ some (s.kind, keys s.labels)) × (is_line s.help ≡ true)

pub is_line_lem : (t : Text) → Lacks b'\n' t → is_line t ≡ true
unfolding is_line
is_line_lem [] h = refl
is_line_lem (c ∷ t) h = elim (Bool-cases (c == b'\n')) [
  | inl e ↦ absurd (h.0 (ground (arith, e)))
  | inr e ↦ rw e (is_line_lem t h.1)
]

pub is_line-Lacks : (t : Text) → is_line t ≡ true → Lacks b'\n' t
unfolding is_line
is_line-Lacks [] h = tt
is_line-Lacks (c ∷ t) h = elim (Bool-cases (c == b'\n')) [
  | inl e ↦ absurd (ground (arith, h, e))
  | inr e ↦ ((λ same. ground (arith, e, same)), is_line-Lacks t (ground (arith, h, e)))
]
