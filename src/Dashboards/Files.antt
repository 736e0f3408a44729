-- ===== src/Dashboards/Files.antt =====
-- `dashboards` of tools/dashboardgen/main.go, and the files that its `main` writes, before they are
-- encoded.
use slurm_insights_exporter.Prelude.{List, [], ◌∷◌, map, Text}
use slurm_insights_exporter.Dashboards.{Json, DashboardDef, build}
use slurm_insights_exporter.Dashboards.Overview.{overview_dashboard}
use slurm_insights_exporter.Dashboards.Capacity.{capacity_dashboard}
use slurm_insights_exporter.Dashboards.Jobs.{jobs_dashboard}
use slurm_insights_exporter.Dashboards.Usage.{accounting_dashboard}
use slurm_insights_exporter.Dashboards.Policy.{policy_dashboard}
use slurm_insights_exporter.Dashboards.Controller.{scheduler_dashboard, resources_dashboard}
use slurm_insights_exporter.Dashboards.Health.{health_dashboard}

abbrev pub dashboards : List DashboardDef
dashboards =
    overview_dashboard ∷ capacity_dashboard ∷ jobs_dashboard ∷ accounting_dashboard
    ∷ policy_dashboard ∷ scheduler_dashboard ∷ resources_dashboard ∷ health_dashboard ∷ []

abbrev pub files : List (Text × Json)
files = map (λ d. (d.file, build d)) dashboards
