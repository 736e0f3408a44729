-- ===== src/Dashboards/Generate/Written.antt =====
-- The files that `main` of tools/dashboardgen/main.go leaves.
use mathlib.Core.Option
use slurm_insights_exporter.Prelude.{
  Bool, if◌then◌else◌, List, [], ◌∷◌, Option, Text, text_eq, All, true, false,
}
use slurm_insights_exporter.Dashboards.{DashboardDef, build}
use slurm_insights_exporter.Dashboards.Generate.{
  FileSystem, IsFileSystem, out_of, write_dashboard, IsWritten,
}

module _ {D : Type 0} (fs : FileSystem D) (laws : IsFileSystem fs) (out : Text) where
  abbrev Left : DashboardDef → D × Option Text → Type 0
  Left d r = IsWritten fs out r.0 d

  abbrev AllLeft : List DashboardDef → D × Option Text → Type 0
  AllLeft ds r = All (λ d. Left d r) ds

  abbrev round : DashboardDef → D → D × Option Text
  round d dir = write_dashboard fs out d (fs.marshal (build d)) dir

abbrev are_apart : Text → List DashboardDef → Bool
are_apart f [] = true
are_apart f (d ∷ ds) = if text_eq f d.file then false else are_apart f ds

abbrev differ : List DashboardDef → Bool
differ [] = true
differ (d ∷ ds) = if are_apart d.file ds then differ ds else false

module _ {D : Type 0} (fs : FileSystem D) (laws : IsFileSystem fs) (args : List Text)
    (dir : D) where
  abbrev made : D × Option Text
  made = fs.mkdir (out_of args) dir
