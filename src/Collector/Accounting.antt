-- ===== src/Collector/Accounting.antt =====
-- The collector `accounting` of internal/slurm/collector.go: job records from `sacct`, with the
-- largest MaxRSS of a job's steps, and their sums by cluster, account, partition, QoS and state.
pub mod Jobs
use slurm_insights_exporter.Prelude.{
  ℕ, Bool, true, false, not, ◌||◌, ◌&&◌, List, [], ◌∷◌, ◌++◌, map, Option, none, some, Text, Dict,
  codes, length, ltb, leb, if◌then◌else◌, lookup, insert, pos,
}
use slurm_insights_exporter.Float.{Float, num}
use slurm_insights_exporter.Model.{Sample, JobRecord, Time}
use slurm_insights_exporter.Clock.{Formats, Duration, earlier, time_sub, seconds}
use slurm_insights_exporter.Strings.{split, join, contains, before}
use slurm_insights_exporter.Parse.{
  lines, number, duration, clean, base_state, parse_bytes, memory_allocation,
}
use slurm_insights_exporter.Collector.{Config, Outcome}
use slurm_insights_exporter.Collector.Shared.{Runner, command, cell, gauge}
use slurm_insights_exporter.Collector.Groups.{group, or_zero}
use slurm_insights_exporter.Collector.Queue.{nul}

pub record Agg (F : Type 0) : Type 0 where
  pub jobs : F
  pub alloc : F
  pub elapsed : F
  pub capacity : F
  pub cpu : F
  pub memory_used : F
  pub memory_requested : F
  pub energy : F

-- A row of a job's step, whose id holds a dot.
abbrev pub is_step : List Text → Bool
is_step r = contains b'.' (cell r 1)

-- A row that is neither skipped for its length nor a step's.
abbrev pub is_job_row : List Text → Bool
is_job_row r = not (ltb (length r) 11) && not (is_step r)

unfoldable pub accounting_key : List Text → Text
accounting_key r = join nul (
    clean (cell r 0)
    ∷ clean (cell r 3)
    ∷ clean (cell r 4)
    ∷ clean (cell r 5)
    ∷ base_state (cell r 6)
    ∷ [])

module _ {F : Type 0} ⦃fl : Float F⦄ where
  open fl use {add, mul, div, lt, eq}

  abbrev pub zero_agg : Agg F
  zero_agg = record {
    jobs = num 0;
    alloc = num 0;
    elapsed = num 0;
    capacity = num 0;
    cpu = num 0;
    memory_used = num 0;
    memory_requested = num 0;
    energy = num 0;
  }

  -- `maxRSS[root] = v` if it is above what is there.
  unfoldable pub rss_row : Dict F → List Text → Dict F
  rss_row m r =
      let root = before b'.' (cell r 1) in
      let v = parse_bytes (cell r 14) in
      if leb 15 (length r) && is_step r && lt (or_zero (num 0) (lookup root m)) v
      then insert root v m
      else m

  unfoldable pub max_rss_of : List (List Text) → Dict F → Dict F
  max_rss_of [] m = m
  max_rss_of (r ∷ rs) m = max_rss_of rs (rss_row m r)

  abbrev pub is_positive : F → Bool
  is_positive x = lt (num 0) x

  unfoldable pub node_count : List Text → F
  node_count r =
      if leb 19 (length r) && is_positive (number (cell r 18)) then number (cell r 18) else num 1

  unfoldable pub wait_seconds_of : Option Time → Option Time → F
  wait_seconds_of (some start) (some submit) = seconds (time_sub start submit)
  wait_seconds_of _ _ = num 0

  -- The step's maximum, or the job row's own MaxRSS if there is none.
  unfoldable pub rss_of : Dict F → Text → Text → F
  rss_of m id own =
      let v = or_zero (num 0) (lookup id m) in if eq v (num 0) then parse_bytes own else v

  -- The fields that need no more than eleven columns.
  unfoldable pub basic_job : List Text → JobRecord F
  basic_job r = record {
    cluster = clean (cell r 0);
    job_id = clean (cell r 1);
    user = [];
    account = clean (cell r 3);
    partition = clean (cell r 4);
    qos = clean (cell r 5);
    state = base_state (cell r 6);
    alloc_cpus = number (cell r 7);
    elapsed_seconds = number (cell r 8);
    cpu_seconds = duration (cell r 10);
    wait_seconds = num 0;
    requested_memory_bytes = num 0;
    max_rss_bytes = num 0;
    energy_joules = num 0;
    allocated_tres = [];
    requested_tres = [];
    cpu_efficiency_ratio = num 0;
    memory_efficiency_ratio = num 0;
  }

  -- The block under `len(r) >= 18`.
  unfoldable pub with_usage : Formats → Dict F → List Text → JobRecord F → JobRecord F
  with_usage formats rss r j = record j {
    requested_memory_bytes = memory_allocation (cell r 13) j.alloc_cpus (node_count r);
    max_rss_bytes = rss_of rss j.job_id (cell r 14);
    energy_joules = number (cell r 15);
    allocated_tres = clean (cell r 16);
    requested_tres = clean (cell r 17);
    wait_seconds =
        wait_seconds_of (formats.parse_time (cell r 12)) (formats.parse_time (cell r 11));
  }

  unfoldable pub with_ratios : JobRecord F → JobRecord F
  with_ratios j =
      let capacity = mul j.alloc_cpus j.elapsed_seconds in
      record j {
        cpu_efficiency_ratio =
            if is_positive capacity then div j.cpu_seconds capacity else j.cpu_efficiency_ratio;
        memory_efficiency_ratio =
            if is_positive j.requested_memory_bytes
            then div j.max_rss_bytes j.requested_memory_bytes
            else j.memory_efficiency_ratio;
      }

  unfoldable pub with_user : Config → List Text → JobRecord F → JobRecord F
  with_user cfg r j = if cfg.include_users then record j { user = clean (cell r 2) } else j

  unfoldable pub job_of : Formats → Config → Dict F → List Text → JobRecord F
  job_of formats cfg rss r =
      let j = basic_job r in
      let used = if leb 18 (length r) then with_usage formats rss r j else j in
      with_user cfg r (with_ratios used)

  unfoldable pub accounting_step : Formats → Config → Dict F → List Text → Agg F → Agg F
  accounting_step formats cfg rss r a =
      let j = job_of formats cfg rss r in
      record {
        jobs = add a.jobs (num 1);
        alloc = add a.alloc (number (cell r 7));
        elapsed = add a.elapsed (number (cell r 8));
        capacity = add a.capacity (number (cell r 9));
        cpu = add a.cpu (duration (cell r 10));
        memory_used = add a.memory_used j.max_rss_bytes;
        memory_requested = add a.memory_requested j.requested_memory_bytes;
        energy = add a.energy j.energy_joules;
      }

  -- The second loop over the rows: its groups and its jobs.
  unfoldable pub accounting_loop :
      Formats
      → Config
      → Dict F
      → List (List Text)
      → Dict (Agg F)
      → List (JobRecord F)
      → Dict (Agg F) × List (JobRecord F)
  accounting_loop formats cfg rss [] m jobs = (m, jobs)
  accounting_loop formats cfg rss (r ∷ rs) m jobs =
      let skip = accounting_loop formats cfg rss rs m jobs in
      let k = accounting_key r in
      let a = accounting_step formats cfg rss r (or_zero zero_agg (lookup k m)) in
      let take_in =
        accounting_loop formats cfg rss rs (insert k a m) (jobs ++ job_of formats cfg rss r ∷ []) in
      if ltb (length r) 11 then skip else if is_step r then skip else take_in

  unfoldable pub ratio_sample : Text → Text → F → F → Dict Text → List (Sample F)
  ratio_sample name help part whole l =
      if is_positive whole then gauge name help (div part whole) l ∷ [] else []

  unfoldable pub accounting_samples : Formats → Config → Dict (Agg F) → List (Sample F)
  accounting_samples formats cfg [] = []
  accounting_samples formats cfg ((k, a) ∷ m) =
      let p = split nul k in
      let l : Dict Text =
        (codes "cluster", cell p 0)
        ∷ (codes "account", cell p 1)
        ∷ (codes "partition", cell p 2)
        ∷ (codes "qos", cell p 3)
        ∷ (codes "state", cell p 4)
        ∷ (codes "window", formats.format_duration cfg.accounting_window)
        ∷ [] in
      gauge (codes "accounting_jobs") (codes "Jobs") a.jobs l
      ∷ gauge (codes "accounting_allocated_cpus") (codes "Allocated CPUs") a.alloc l
      ∷ gauge (codes "accounting_elapsed_seconds") (codes "Wall-clock seconds") a.elapsed l
      ∷ gauge (codes "accounting_cpu_capacity_seconds") (codes "Allocated CPU capacity seconds")
          a.capacity l
      ∷ gauge (codes "accounting_cpu_seconds") (codes "Consumed CPU seconds") a.cpu l
      ∷ (ratio_sample (codes "accounting_cpu_efficiency_ratio")
            (codes "CPU seconds divided by allocated CPU capacity") a.cpu a.capacity l
          ++ gauge (codes "accounting_max_rss_bytes") (codes "Sum of job maximum RSS") a.memory_used
              l
            ∷ gauge (codes "accounting_requested_memory_bytes")
                (codes "Sum of requested job memory") a.memory_requested l
            ∷ gauge (codes "accounting_energy_joules") (codes "Reported consumed energy") a.energy l
            ∷ (ratio_sample (codes "accounting_memory_efficiency_ratio")
                  (codes "Maximum RSS divided by requested memory") a.memory_used a.memory_requested
                  l
                ++ accounting_samples formats cfg m))

  unfoldable pub read_accounting : Formats → Config → Text → Outcome F
  read_accounting formats cfg b =
      let rows = lines b in
      let (m, jobs) = accounting_loop formats cfg (max_rss_of rows []) rows [] [] in
      record { samples = accounting_samples formats cfg m; jobs = jobs; err = none }

  unfoldable pub accounting :
      {W : Type 0} → Formats → (W → Time) → Runner W → Config → W → Outcome F × W
  accounting formats now runner cfg w =
      let start = formats.format_time (earlier (now w) cfg.accounting_window) in
      command runner cfg (codes "sacct")
        (codes "--allusers"
          ∷ codes "--noheader"
          ∷ codes "--parsable2"
          ∷ codes "--starttime"
          ∷ start
          ∷ codes "--format"
          ∷ codes
              "Cluster,JobIDRaw,User,Account,Partition,QOS,State,AllocCPUS,ElapsedRaw,CPUTimeRAW,TotalCPU,Submit,Start,ReqMem,MaxRSS,ConsumedEnergyRaw,AllocTRES,ReqTRES,AllocNodes"
          ∷ [])
        (read_accounting formats cfg) w
