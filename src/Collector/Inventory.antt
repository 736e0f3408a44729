-- ===== src/Collector/Inventory.antt =====
-- The collectors `nodes`, `partitions` and `fairshare` of internal/slurm/collector.go: one row of
-- the command's output to a few samples.
use slurm_insights_exporter.Prelude.{
  List, [], ◌∷◌, ◌++◌, Text, Dict, codes, length, ltb, leb, if◌then◌else◌, insert,
}
use slurm_insights_exporter.Float.{Float, num}
use slurm_insights_exporter.Model.{Sample}
use slurm_insights_exporter.Strings.{split}
use slurm_insights_exporter.Parse.{lines, number, duration, clean, base_state}
use slurm_insights_exporter.Parse.Gpu.{gpu_count}
use slurm_insights_exporter.Collector.{Config, Outcome}
use slurm_insights_exporter.Collector.Shared.{
  Runner, command, only_samples, cell, gauge, with_status, dispositions,
}

abbrev pub fairshare_labels : Config → List Text → Dict Text
fairshare_labels cfg r =
    let l : Dict Text = (codes "cluster", cfg.cluster) ∷ (codes "account", clean (cell r 0)) ∷ [] in
    if cfg.include_users then insert (codes "user") (clean (cell r 1)) l else l

module _ {F : Type 0} ⦃fl : Float F⦄ where
  open fl use {mul}

  -- A loop over rows that appends what each row gives.
  abbrev pub each_row : (List Text → List (Sample F)) → List (List Text) → List (Sample F)
  each_row f [] = []
  each_row f (r ∷ rs) = f r ++ each_row f rs

  unfoldable pub partition_row : Config → List Text → List (Sample F)
  partition_row cfg r =
      let l : Dict Text =
        (codes "cluster", cfg.cluster)
        ∷ (codes "partition", clean (cell r 0))
        ∷ (codes "availability", clean (cell r 1))
        ∷ [] in
      if ltb (length r) 5
      then []
      else gauge (codes "partition_nodes") (codes "Nodes in partition") (number (cell r 3)) l
        ∷ gauge (codes "partition_time_limit_seconds") (codes "Partition time limit")
            (duration (cell r 2)) l
        ∷ dispositions (codes "partition_cpus") (codes "CPUs in partition by disposition") l
            (split b'/' (cell r 4))

  unfoldable pub partitions : {W : Type 0} → Runner W → Config → W → Outcome F × W
  partitions runner cfg =
      command runner cfg (codes "sinfo")
        (codes "--noheader" ∷ codes "--summarize" ∷ codes "--format=%P|%a|%l|%D|%C" ∷ [])
        (λ b. only_samples (each_row (partition_row cfg) (lines b)))

  -- Megabytes, in bytes.
  abbrev pub mebibytes : Text → F
  mebibytes s = mul (mul (number s) (num 1024)) (num 1024)

  unfoldable pub node_row : Config → List Text → List (Sample F)
  node_row cfg r =
      let l : Dict Text =
        (codes "cluster", cfg.cluster)
        ∷ (codes "node", clean (cell r 0))
        ∷ (codes "partition", clean (cell r 1))
        ∷ (codes "state", base_state (cell r 2))
        ∷ [] in
      let gpus =
        gauge (codes "node_gpus") (codes "GPUs by disposition") (gpu_count (cell r 7))
          (with_status l (codes "total"))
        ∷ gauge (codes "node_gpus") (codes "GPUs by disposition") (gpu_count (cell r 8))
            (with_status l (codes "allocated"))
        ∷ [] in
      let load =
        gauge (codes "node_cpu_load") (codes "Reported CPU load") (number (cell r 9)) l ∷ [] in
      let used =
        gauge (codes "node_allocated_memory_bytes") (codes "Allocated memory")
          (mebibytes (cell r 10)) l
        ∷ [] in
      if ltb (length r) 7
      then []
      else gauge (codes "node_info") (codes "Node inventory and state") (num 1) l
        ∷ gauge (codes "node_cpus") (codes "Configured CPUs") (number (cell r 3)) l
        ∷ gauge (codes "node_memory_bytes") (codes "Configured memory") (mebibytes (cell r 4)) l
        ∷ gauge (codes "node_free_memory_bytes") (codes "Reported free memory")
            (mebibytes (cell r 5)) l
        ∷ (dispositions (codes "node_cpu_count") (codes "CPU count by disposition") l
              (split b'/' (cell r 6))
            ++ (if leb 9 (length r) then gpus else [])
            ++ (if leb 10 (length r) then load else [])
            ++ (if leb 11 (length r) then used else []))

  unfoldable pub nodes : {W : Type 0} → Runner W → Config → W → Outcome F × W
  nodes runner cfg =
      command runner cfg (codes "sinfo")
        (codes "--noheader"
          ∷ codes "--Node"
          ∷ codes "--format=%N|%P|%T|%c|%m|%e|%C|%G|%g|%O|%A"
          ∷ [])
        (λ b. only_samples (each_row (node_row cfg) (lines b)))

  unfoldable pub fairshare_row : Config → List Text → List (Sample F)
  fairshare_row cfg r =
      let l = fairshare_labels cfg r in
      if ltb (length r) 7
      then []
      else gauge (codes "fairshare_raw_shares") (codes "Raw shares") (number (cell r 2)) l
        ∷ gauge (codes "fairshare_normalized_shares") (codes "Normalized shares")
            (number (cell r 3)) l
        ∷ gauge (codes "fairshare_raw_usage") (codes "Raw usage") (number (cell r 4)) l
        ∷ gauge (codes "fairshare_effective_usage") (codes "Effective usage") (number (cell r 5)) l
        ∷ gauge (codes "fairshare_factor") (codes "Fair-share factor") (number (cell r 6)) l
        ∷ []

  unfoldable pub fairshare : {W : Type 0} → Runner W → Config → W → Outcome F × W
  fairshare runner cfg =
      command runner cfg (codes "sshare")
        (codes "--all"
          ∷ codes "--parsable2"
          ∷ codes "--noheader"
          ∷ codes "--format=Account,User,RawShares,NormShares,RawUsage,EffectvUsage,FairShare"
          ∷ [])
        (λ b. only_samples (each_row (fairshare_row cfg) (lines b)))
