-- ===== src/Collector/Queue.antt =====
-- The collector `queue` of internal/slurm/collector.go: live jobs by state, partition, account, QoS
-- and reason, and the running jobs one by one where that is switched on.
pub mod Totals
use slurm_insights_exporter.Prelude.{
  ℕ, Bool, true, false, not, ◌||◌, List, [], ◌∷◌, ◌++◌, Option, none, some, Text, Dict, codes,
  length, ltb, leb, if◌then◌else◌, text_eq,
}
use slurm_insights_exporter.Float.{Float, num}
use slurm_insights_exporter.Model.{Sample, Time}
use slurm_insights_exporter.Clock.{Formats, time_sub, unix, seconds}
use slurm_insights_exporter.Strings.{split, join}
use slurm_insights_exporter.Parse.{lines, number, duration, clean, base_state, memory_allocation}
use slurm_insights_exporter.Parse.Gpu.{gpu_count}
use slurm_insights_exporter.Collector.{Config, Outcome}
use slurm_insights_exporter.Collector.Shared.{Runner, command, only_samples, cell, gauge}
use slurm_insights_exporter.Collector.Groups.{group}
use slurm_insights_exporter.Collector.Inventory.{each_row}

pub record Agg (F : Type 0) : Type 0 where
  pub jobs : F
  pub nodes : F
  pub cpus : F
  pub elapsed : F
  pub limit : F
  pub memory : F
  pub gpus : F

-- The separator of a key's parts, `"\x00"`.
abbrev pub nul : ℕ
nul = 0

unfoldable pub queue_key : List Text → Text
queue_key r = join nul (
    base_state (cell r 0)
    ∷ clean (cell r 1)
    ∷ clean (cell r 2)
    ∷ clean (cell r 3)
    ∷ clean (cell r 8)
    ∷ [])

-- The rows that are not skipped.
abbrev pub long_enough : ℕ → List (List Text) → List (List Text)
long_enough n [] = []
long_enough n (r ∷ rs) = let rest = long_enough n rs in if ltb (length r) n then rest else r ∷ rest

unfoldable pub queue_labels : Config → List Text → Dict Text
queue_labels cfg p =
    (codes "cluster", cfg.cluster)
    ∷ (codes "state", cell p 0)
    ∷ (codes "partition", cell p 1)
    ∷ (codes "account", cell p 2)
    ∷ (codes "qos", cell p 3)
    ∷ (codes "reason", cell p 4)
    ∷ []

module _ {F : Type 0} ⦃fl : Float F⦄ where
  open fl use {add}

  abbrev pub zero_agg : Agg F
  zero_agg = record {
    jobs = num 0;
    nodes = num 0;
    cpus = num 0;
    elapsed = num 0;
    limit = num 0;
    memory = num 0;
    gpus = num 0;
  }

  unfoldable pub queue_step : List Text → Agg F → Agg F
  queue_step r a =
      let cpus = number (cell r 5) in
      let nodes = number (cell r 4) in
      let wide = leb 14 (length r) in
      record {
        jobs = add a.jobs (num 1);
        nodes = add a.nodes nodes;
        cpus = add a.cpus cpus;
        elapsed = add a.elapsed (duration (cell r 6));
        limit = add a.limit (duration (cell r 7));
        memory = if wide then add a.memory (memory_allocation (cell r 12) cpus nodes) else a.memory;
        gpus = if wide then add a.gpus (gpu_count (cell r 13)) else a.gpus;
      }

  -- The first loop over the rows.
  unfoldable pub queue_groups : List (List Text) → Dict (Agg F)
  queue_groups rows = group queue_key queue_step zero_agg (long_enough 9 rows) []

  unfoldable pub queue_samples : Config → Dict (Agg F) → List (Sample F)
  queue_samples cfg [] = []
  queue_samples cfg ((k, a) ∷ m) =
      let l = queue_labels cfg (split nul k) in
      gauge (codes "queue_jobs") (codes "Jobs in queue") a.jobs l
      ∷ gauge (codes "queue_nodes") (codes "Nodes requested or allocated") a.nodes l
      ∷ gauge (codes "queue_cpus") (codes "CPUs requested or allocated") a.cpus l
      ∷ gauge (codes "queue_elapsed_seconds") (codes "Aggregate elapsed time") a.elapsed l
      ∷ gauge (codes "queue_time_limit_seconds") (codes "Aggregate time limit") a.limit l
      ∷ gauge (codes "queue_memory_bytes") (codes "Memory requested or allocated") a.memory l
      ∷ gauge (codes "queue_gpus") (codes "GPUs requested or allocated") a.gpus l
      ∷ queue_samples cfg m

  unfoldable pub start_samples : Option Time → Dict Text → List (Sample F)
  start_samples none l = []
  start_samples (some start) l =
      gauge (codes "job_start_time_seconds") (codes "Job start Unix time") (fl.of_int (unix start))
        l
      ∷ []

  unfoldable pub wait_samples : Option Time → Option Time → Dict Text → List (Sample F)
  wait_samples (some start) (some submit) l =
      gauge (codes "job_wait_seconds") (codes "Submit-to-start wait")
        (seconds (time_sub start submit)) l
      ∷ []
  wait_samples _ _ l = []

  unfoldable pub running_job : Formats → Config → List Text → List (Sample F)
  running_job formats cfg r =
      let l : Dict Text =
        (codes "cluster", cfg.cluster)
        ∷ (codes "job_id", clean (cell r 9))
        ∷ (codes "job_name", clean (cell r 10))
        ∷ (codes "user", clean (cell r 11))
        ∷ (codes "partition", clean (cell r 1))
        ∷ (codes "account", clean (cell r 2))
        ∷ (codes "nodelist", clean (cell r 16))
        ∷ [] in
      let start = formats.parse_time (cell r 15) in
      let submit = formats.parse_time (cell r 14) in
      let memory = memory_allocation (cell r 12) (number (cell r 5)) (number (cell r 4)) in
      if ltb (length r) 17 || not (text_eq (base_state (cell r 0)) (codes "RUNNING"))
      then []
      else gauge (codes "job_info") (codes "Running job information") (num 1) l
        ∷ gauge (codes "job_nodes") (codes "Allocated nodes") (number (cell r 4)) l
        ∷ gauge (codes "job_cpus") (codes "Allocated CPUs") (number (cell r 5)) l
        ∷ gauge (codes "job_memory_bytes") (codes "Requested memory") memory l
        ∷ gauge (codes "job_gpus") (codes "Requested GPUs") (gpu_count (cell r 13)) l
        ∷ gauge (codes "job_elapsed_seconds") (codes "Elapsed runtime") (duration (cell r 6)) l
        ∷ (start_samples start l ++ wait_samples start submit l)

  unfoldable pub read_queue : Formats → Config → Text → List (Sample F)
  read_queue formats cfg b =
      let running = each_row (running_job formats cfg) (lines b) in
      queue_samples cfg (queue_groups (lines b)) ++ (if cfg.include_jobs then running else [])

  unfoldable pub queue : {W : Type 0} → Formats → Runner W → Config → W → Outcome F × W
  queue formats runner cfg =
      command runner cfg (codes "squeue")
        (codes "--noheader"
          ∷ codes "--all"
          ∷ codes "--format=%T|%P|%a|%q|%D|%C|%M|%l|%r|%i|%j|%u|%m|%b|%V|%S|%N"
          ∷ [])
        (λ b. only_samples (read_queue formats cfg b))
