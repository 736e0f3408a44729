-- ===== src/Collector/Limits.antt =====
-- The collectors `reservations`, `licenses` and `accountLimits` of internal/slurm/collector.go.
use slurm_insights_exporter.Prelude.{
  ◌||◌, List, [], ◌∷◌, ◌++◌, Option, none, some, Text, Dict, codes, text_eq, length, ltb,
  if◌then◌else◌,
}
use slurm_insights_exporter.Float.{Float, num}
use slurm_insights_exporter.Model.{Sample, Time}
use slurm_insights_exporter.Clock.{Formats, unix}
use slurm_insights_exporter.Parse.{lines, number, clean, parse_bytes}
use slurm_insights_exporter.Collector.{Config, Outcome}
use slurm_insights_exporter.Collector.Shared.{
  Runner, command, only_samples, cell, gauge, with_status,
}
use slurm_insights_exporter.Collector.Inventory.{each_row}
use slurm_insights_exporter.Collector.KeyValues.{key_values, tres_values, value_at, text_lines}

-- `name := kv["LicenseName"]; if name == "" { name = kv["Name"] }`
unfoldable pub license_name : Dict Text → Text
license_name kv =
    if text_eq (value_at (codes "LicenseName") kv) []
    then value_at (codes "Name") kv
    else value_at (codes "LicenseName") kv

module _ {F : Type 0} ⦃fl : Float F⦄ where
  abbrev pub each_line : (Text → List (Sample F)) → List Text → List (Sample F)
  each_line f [] = []
  each_line f (l ∷ ls) = f l ++ each_line f ls

  unfoldable pub end_samples : Option Time → Dict Text → List (Sample F)
  end_samples none l = []
  end_samples (some t) l =
      gauge (codes "reservation_end_time_seconds") (codes "Reservation end as Unix time")
        (fl.of_int (unix t)) l
      ∷ []

  unfoldable pub reservation_line : Formats → Config → Text → List (Sample F)
  reservation_line formats cfg line =
      let kv = key_values line in
      let name = value_at (codes "ReservationName") kv in
      let l : Dict Text =
        (codes "cluster", cfg.cluster)
        ∷ (codes "reservation", name)
        ∷ (codes "partition", value_at (codes "PartitionName") kv)
        ∷ (codes "state", value_at (codes "State") kv)
        ∷ [] in
      if text_eq name []
      then []
      else gauge (codes "reservation_info") (codes "Reservation inventory and state") (num 1) l
        ∷ gauge (codes "reservation_nodes") (codes "Reserved nodes")
            (number (value_at (codes "NodeCnt") kv)) l
        ∷ gauge (codes "reservation_cores") (codes "Reserved cores")
            (number (value_at (codes "CoreCnt") kv)) l
        ∷ end_samples (formats.parse_time (value_at (codes "EndTime") kv)) l

  unfoldable pub reservations : {W : Type 0} → Formats → Runner W → Config → W → Outcome F × W
  reservations formats runner cfg =
      command runner cfg (codes "scontrol")
        (codes "show" ∷ codes "reservation" ∷ codes "--oneliner" ∷ [])
        (λ b. only_samples (each_line (reservation_line formats cfg) (text_lines b)))

  abbrev license_sample : Dict Text → Dict Text → Text → Text → Sample F
  license_sample kv l key name =
      gauge (codes "license_count") (codes "License count by disposition")
        (number (value_at key kv)) (with_status l name)

  unfoldable pub license_line : Config → Text → List (Sample F)
  license_line cfg line =
      let kv = key_values line in
      let name = license_name kv in
      let l : Dict Text =
        (codes "cluster", cfg.cluster)
        ∷ (codes "license", name)
        ∷ (codes "remote", value_at (codes "Remote") kv)
        ∷ [] in
      if text_eq name []
      then []
      else license_sample kv l (codes "Total") (codes "total")
        ∷ license_sample kv l (codes "Used") (codes "used")
        ∷ license_sample kv l (codes "Free") (codes "free")
        ∷ license_sample kv l (codes "Reserved") (codes "reserved")
        ∷ []

  unfoldable pub licenses : {W : Type 0} → Runner W → Config → W → Outcome F × W
  licenses runner cfg =
      command runner cfg (codes "scontrol")
        (codes "show" ∷ codes "licenses" ∷ codes "--oneliner" ∷ [])
        (λ b. only_samples (each_line (license_line cfg) (text_lines b)))

  unfoldable pub limit_row : List Text → List (Sample F)
  limit_row r =
      let l : Dict Text =
        (codes "cluster", clean (cell r 0)) ∷ (codes "account", clean (cell r 1)) ∷ [] in
      let t = tres_values (cell r 2) in
      if ltb (length r) 5 || text_eq (clean (cell r 1)) []
      then []
      else gauge (codes "account_cpu_limit") (codes "Account CPU limit; zero means unlimited")
          (number (value_at (codes "cpu") t)) l
        ∷ gauge (codes "account_memory_limit_bytes")
            (codes "Account memory limit; zero means unlimited")
            (parse_bytes (value_at (codes "mem") t)) l
        ∷ gauge (codes "account_running_job_limit")
            (codes "Account concurrent job limit; zero means unlimited") (number (cell r 3)) l
        ∷ gauge (codes "account_submitted_job_limit")
            (codes "Account submitted job limit; zero means unlimited") (number (cell r 4)) l
        ∷ []

  unfoldable pub account_limits : {W : Type 0} → Runner W → Config → W → Outcome F × W
  account_limits runner cfg =
      command runner cfg (codes "sacctmgr")
        (codes "--noheader"
          ∷ codes "--parsable2"
          ∷ codes "show"
          ∷ codes "assoc"
          ∷ codes "where"
          ∷ codes "user="
          ∷ codes "format=Cluster,Account,GrpTRES,GrpJobs,GrpSubmitJobs"
          ∷ [])
        (λ b. only_samples (each_row limit_row (lines b)))
