-- ===== src/Server/Process/Writes.antt =====
-- The goroutine of the archive in the running exporter of cmd/slurm-insights-exporter/main.go goes on.
use slurm_insights_exporter.Prelude.{◌≡◌, List, ◌∷◌, ◌++◌, Text, codes}
use slurm_insights_exporter.Float.{Float}
use slurm_insights_exporter.Model.{Snapshot}
use slurm_insights_exporter.History.{observation_of}
use slurm_insights_exporter.History.Healthy.{Encodes}
use slurm_insights_exporter.History.Events.{contents, entry}
use slurm_insights_exporter.Server.Process.{Process, Deployment}
use slurm_insights_exporter.Server.Process.Answers.{IsCollected, IsYoung}

module _ {F W : Type 0} ⦃fl : Float F⦄ (d : Deployment F W) (total : Encodes d.codec) where
  abbrev observed : Snapshot F → Text × Text
  observed snap = entry d.codec (codes "observation") (observation_of snap)

  -- The archive has an observation of a snapshot behind lines that it got before.
  abbrev pub Observes : Process F W → Process F W → Type 0
  Observes q r =
      (snap : Snapshot F) × IsCollected d snap r.cache.at
      × IsYoung d r.cache.at r.world
      × (before : List (Text × Text)) × (events : List (Text × Text)) × (contents r.archive
          ≡ (contents q.archive ++ before)
            ++ entry d.codec (codes "observation") (observation_of snap) ∷ events)
