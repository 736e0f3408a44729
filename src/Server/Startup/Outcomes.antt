-- ===== src/Server/Startup/Outcomes.antt =====
-- How `main` of cmd/slurm-insights-exporter/main.go starts or exits.
use slurm_insights_exporter.Prelude.{
  ◌≡◌, ◌≢◌, ◌↔◌, [], Option, none, some, Text, text_eq_iff, arith, ◌<ℤ◌, pos,
}
use slurm_insights_exporter.Collector.{Config}
use slurm_insights_exporter.Collector.Valid.{validate_lem}
use slurm_insights_exporter.History.{Codec, Store, Disk, open_store}
use slurm_insights_exporter.Server.Startup.{
  Settings, config_of, exits, runs, startup, ServeError, server_closed, other,
}

-- The configuration of a process that may collect.
abbrev pub IsUsable : Config → Type 0
IsUsable c =
    (c.cluster ≢ [])
    × (pos 0 <ℤ c.timeout)
    × (pos 0 <ℤ c.accounting_window)
    × (pos 0 <ℤ c.slow_refresh)

-- The server has not ended with an error, or only with that it was closed.
abbrev pub EndsWell : Option ServeError → Type 0
EndsWell none = Unit
EndsWell (some server_closed) = Unit
EndsWell (some (other e)) = ⊥

module _ {F : Type 0} (codec : Codec F) (s : Settings) (mkdir_error read_error : Option Text)
    (disk : Disk) where
  -- A process that runs has the configuration of its settings, which is usable, and an archive exactly
  -- if a directory is set for it, and the archive is what opening the directory gives.
  pub startup_runs :
      {c : Config} {h : Option Store}
      → startup codec s mkdir_error read_error disk ≡ runs c h
      → (c ≡ config_of s)
        × IsUsable c
        × ((h ≡ none) ↔ (s.history_dir ≡ []))
        × ((archive : Store)
            → h ≡ some archive
            → open_store codec s.history_dir mkdir_error read_error disk ≡ some archive)
  unfolding startup
  startup_runs {c} {h} e =
      ground (arith, e, validate_lem (config_of s), text_eq_iff s.history_dir [])

  -- The process exits with 2 exactly if the configuration is not usable, and with 1 exactly if it is
  -- and a directory for the archive is set that cannot be opened.
  pub startup_exits :
      ((startup codec s mkdir_error read_error disk ≡ exits 2) ↔ (¬ IsUsable (config_of s)))
      × ((startup codec s mkdir_error read_error disk ≡ exits 1) ↔ (
          IsUsable (config_of s)
          × (s.history_dir ≢ [])
          × (open_store codec s.history_dir mkdir_error read_error disk ≡ none)))
  unfolding startup
  startup_exits = ground (arith, validate_lem (config_of s), text_eq_iff s.history_dir [])

  -- The archive that the settings ask for can be opened.
  abbrev pub CanArchive : Type 0
  CanArchive =
      s.history_dir ≢ [] → open_store codec s.history_dir mkdir_error read_error disk ≢ none
