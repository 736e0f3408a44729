-- ===== src/Collector/Schedule.antt =====
-- The ten collectors that `Collect` of internal/slurm/collector.go runs.
pub mod Kept
use slurm_insights_exporter.Collector.Pool.{Task}
use slurm_insights_exporter.Prelude.{map, true, false, if◌then◌else◌, List, [], ◌∷◌, Text, codes}
use slurm_insights_exporter.Float.{Float}
use slurm_insights_exporter.Model.{Time}
use slurm_insights_exporter.Clock.{Formats}
use slurm_insights_exporter.Collector.{Config, Outcome, World, Named, fast, slow}
use slurm_insights_exporter.Collector.Shared.{Runner}
use slurm_insights_exporter.Collector.Inventory.{nodes, partitions, fairshare}
use slurm_insights_exporter.Collector.Queue.{queue}
use slurm_insights_exporter.Collector.Accounting.{accounting}
use slurm_insights_exporter.Collector.Limits.{reservations, licenses, account_limits}
use slurm_insights_exporter.Collector.Scheduler.{diagnostics}
use slurm_insights_exporter.Collector.Tres.{tres_profiles}

module _ {F W : Type 0} (now : W → Time) where
  abbrev pub fast_entry : Text → (W → Outcome F × W) → Named F W
  fast_entry name fn = record { name = name; fn = fast fn }

  abbrev pub slow_entry : Config → Text → (W → Outcome F × W) → Named F W
  slow_entry cfg name fn = record { name = name; fn = slow now cfg name fn }

  -- A collector with `slow` around its function or without.
  abbrev pub named_of : Config → Task F W → Named F W
  named_of cfg k = if k.is_slow then slow_entry cfg k.name k.fn else fast_entry k.name k.fn

module _ {F W : Type 0} where
  abbrev fast_task : Text → (W → Outcome F × W) → Task F W
  fast_task name fn = record { name = name; is_slow = false; fn = fn }

  abbrev slow_task : Text → (W → Outcome F × W) → Task F W
  slow_task name fn = record { name = name; is_slow = true; fn = fn }

unfoldable pub tasks :
    {F W : Type 0} ⦃fl : Float F⦄
    → (W → Time)
    → Formats
    → (Text → Text)
    → Runner W
    → Config
    → List (Task F W)
tasks now formats digest runner cfg =
    fast_task (codes "nodes") (nodes runner cfg)
    ∷ fast_task (codes "partitions") (partitions runner cfg)
    ∷ fast_task (codes "queue") (queue formats runner cfg)
    ∷ slow_task (codes "tres_profiles") (tres_profiles digest runner cfg)
    ∷ slow_task (codes "reservations") (reservations formats runner cfg)
    ∷ slow_task (codes "accounting") (accounting formats now runner cfg)
    ∷ slow_task (codes "fairshare") (fairshare runner cfg)
    ∷ slow_task (codes "scheduler") (diagnostics runner cfg)
    ∷ slow_task (codes "licenses") (licenses runner cfg)
    ∷ slow_task (codes "account_limits") (account_limits runner cfg)
    ∷ []

unfoldable pub schedule :
    {F W : Type 0} ⦃fl : Float F⦄ (now : W → Time)
    → Formats
    → (Text → Text)
    → Runner W
    → Config
    → List (Named F W)
schedule now formats digest runner cfg =
    map (named_of now cfg) (tasks now formats digest runner cfg)
