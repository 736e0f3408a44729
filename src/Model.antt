-- ===== src/Model.antt =====
-- internal/slurm/model.go: samples, job records and snapshots. A time is the number of nanoseconds
-- since Go's zero time, so `IsZero` is a test for 0.
use slurm_insights_exporter.Prelude.{ℕ, List, Text, Dict}

abbrev pub Time : Type 0
Time = ℕ

pub record Sample (F : Type 0) : Type 0 where
  pub name : Text
  pub help : Text
  pub kind : Text
  pub labels : Dict Text
  pub value : F

pub record JobRecord (F : Type 0) : Type 0 where
  pub cluster : Text
  pub job_id : Text
  pub user : Text
  pub account : Text
  pub partition : Text
  pub qos : Text
  pub state : Text
  pub alloc_cpus : F
  pub elapsed_seconds : F
  pub cpu_seconds : F
  pub wait_seconds : F
  pub requested_memory_bytes : F
  pub max_rss_bytes : F
  pub energy_joules : F
  pub allocated_tres : Text
  pub requested_tres : Text
  pub cpu_efficiency_ratio : F
  pub memory_efficiency_ratio : F

pub record Snapshot (F : Type 0) : Type 0 where
  pub collected_at : Time
  pub duration : F
  pub samples : List (Sample F)
  pub jobs : List (JobRecord F)
  pub errors : List Text
