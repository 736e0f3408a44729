-- ===== src/Tests/Starts.antt =====
-- The start of cmd/slurm-insights-exporter/main.go with an archive, by its default settings.
use slurm_insights_exporter.Prelude.{
  ◌≡◌, ◌↔◌, refl, [], ◌∷◌, none, some, Text, Dict, codes, lookup, text_eq,
}
use slurm_insights_exporter.Collector.{validate}
use slurm_insights_exporter.History.{Store, open_store}
use slurm_insights_exporter.Server.{env, duration_env}
use slurm_insights_exporter.Server.Startup.{Flags, Settings, settings, config_of, runs, startup}
use slurm_insights_exporter.Server.Startup.Outcomes.{IsUsable, startup_runs}
use slurm_insights_exporter.Tests.Archive.{codec, archive, disk_with}

abbrev no_flags : Flags
no_flags = record { text = λ t. none; duration = λ t. none; switch = λ t. none }

abbrev vars : Dict Text
vars = (codes "SLURM_CLUSTER", codes "a") ∷ (codes "HISTORY_DIR", codes "/h") ∷ []

abbrev chosen : Settings
chosen = settings (λ t. none) no_flags vars

-- A flag goes before its variable, and a variable before the default.
chosen_cluster :
    ((settings (λ t. none) (record no_flags { text = λ t. some (codes "b") }) vars).cluster
      ≡ codes "b")
    × (chosen.cluster ≡ codes "a")
    × (chosen.listen ≡ codes ":9341")
unfolding settings env duration_env lookup text_eq
chosen_cluster = (refl, refl, refl)

starts : startup codec chosen none none (disk_with []) ≡ runs (config_of chosen) (some archive)
unfolding startup settings config_of env duration_env validate open_store lookup text_eq
starts = refl

startup_runs_example :
    (config_of chosen ≡ config_of chosen)
    × IsUsable (config_of chosen)
    × ((some archive ≡ none) ↔ (chosen.history_dir ≡ []))
    × ((a : Store)
        → some archive ≡ some a
        → open_store codec chosen.history_dir none none (disk_with []) ≡ some a)
startup_runs_example = startup_runs codec chosen none none (disk_with []) starts
