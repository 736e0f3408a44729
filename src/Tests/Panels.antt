-- ===== src/Tests/Panels.antt =====
-- The dashboards of tools/dashboardgen/main.go.
use slurm_insights_exporter.Tests.Collections.{cfg}
use slurm_insights_exporter.Collector.Catalog.{metric_names}
use slurm_insights_exporter.Render.Names.{own_names}
use slurm_insights_exporter.Strings.{split, has_prefix}
use slurm_insights_exporter.Prelude.{
  ℕ, leb, ◌==◌, if◌then◌else◌, codes, ◌≡◌, ◌≢◌, refl, Bool, true, false, not, ◌&&◌, ◌||◌, List, [],
  ◌∷◌, map, Text, text_eq, All, length,
}
use slurm_insights_exporter.Dashboards.{Query, PanelDef, DashboardDef, build}
use slurm_insights_exporter.Dashboards.Overview.{overview_dashboard}
use slurm_insights_exporter.Dashboards.Capacity.{capacity_dashboard}
use slurm_insights_exporter.Dashboards.Jobs.{jobs_dashboard}
use slurm_insights_exporter.Dashboards.Usage.{accounting_dashboard}
use slurm_insights_exporter.Dashboards.Policy.{policy_dashboard}
use slurm_insights_exporter.Dashboards.Controller.{scheduler_dashboard, resources_dashboard}
use slurm_insights_exporter.Dashboards.Health.{health_dashboard}
use slurm_insights_exporter.Dashboards.Files.{dashboards}
use slurm_insights_exporter.Dashboards.Grid.{
  IsApart, IsInside, Pairs, rects, ids, panels_of, build_grid,
}

abbrev has : Text → List Text → Bool
has t [] = false
has t (s ∷ ts) = text_eq t s || has t ts

abbrev are_distinct : List Text → Bool
are_distinct [] = true
are_distinct (t ∷ ts) = not (has t ts) && are_distinct ts

-- No file is written twice.
files_differ : are_distinct (map (λ d. d.file) dashboards) ≡ true
unfolding overview_dashboard capacity_dashboard jobs_dashboard accounting_dashboard policy_dashboard
    scheduler_dashboard resources_dashboard health_dashboard text_eq
files_differ = refl

uids_differ : are_distinct (map (λ d. d.uid) dashboards) ≡ true
unfolding overview_dashboard capacity_dashboard jobs_dashboard accounting_dashboard policy_dashboard
    scheduler_dashboard resources_dashboard health_dashboard text_eq
uids_differ = refl

abbrev is_word : ℕ → Bool
is_word c = (leb b'a' c && leb c b'z') || (leb b'0' c && leb c b'9') || c == b'_'

abbrev blanked : Text → Text
blanked = map (λ c. if is_word c then c else b' ')

-- A word that begins like a metric is one that the collectors or the handlers report.
abbrev is_known : Text → Bool
is_known w = not (has_prefix w (codes "slurm_")) || has w (metric_names cfg) || has w own_names

abbrev all_known : List Text → Bool
all_known [] = true
all_known (w ∷ ws) = is_known w && all_known ws

abbrev queries_known : List Query → Bool
queries_known [] = true
queries_known (t ∷ ts) = all_known (split b' ' (blanked t.expr)) && queries_known ts

abbrev panels_known : List PanelDef → Bool
panels_known [] = true
panels_known (p ∷ ps) = queries_known p.queries && panels_known ps

abbrev dashboards_known : List DashboardDef → Bool
dashboards_known [] = true
dashboards_known (d ∷ ds) = panels_known d.panels && dashboards_known ds

-- No query names a metric that is not reported.
queries_name_known_metrics : dashboards_known dashboards ≡ true
unfolding overview_dashboard capacity_dashboard jobs_dashboard accounting_dashboard policy_dashboard
    scheduler_dashboard resources_dashboard health_dashboard text_eq split has_prefix
queries_name_known_metrics = refl

build_grid_example :
    let ps = panels_of (build overview_dashboard) in
    (length (rects ps) ≡ length overview_dashboard.panels)
    × Pairs IsApart (rects ps)
    × All IsInside (rects ps)
    × Pairs ◌≢◌ (ids ps)
build_grid_example = build_grid overview_dashboard
