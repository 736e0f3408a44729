-- ===== src/Render.antt =====
-- internal/slurm/render.go: the Prometheus text of a snapshot. `quote` is `strconv.Quote`; what is
-- written to the response is one text.
pub mod Families
pub mod Errors
pub mod Names
pub mod Lines
pub mod Rows
pub mod Page
pub mod Order
use slurm_insights_exporter.Prelude.{
  keys, ℕ, Bool, List, [], ◌∷◌, ◌++◌, map, Option, none, some, Text, Dict, codes, lookup, insert,
}
use slurm_insights_exporter.Float.{Float}
use slurm_insights_exporter.Model.{Sample, Snapshot}
use slurm_insights_exporter.Sorting.{sort_strings}
use slurm_insights_exporter.Strings.{join, replace_all}
use slurm_insights_exporter.Collector.Groups.{group, or_zero}

abbrev pub newline : ℕ
newline = 10

-- `groups[s.Name] = append(groups[s.Name], s)` for each sample.
unfoldable pub families : {F : Type 0} → List (Sample F) → Dict (List (Sample F))
families xs = group (λ s. s.name) (λ s g. g ++ s ∷ []) [] xs []

-- `k=quoted`, joined by commas, for the labels in the order of their keys.
unfoldable pub label_parts : (Text → Text) → Dict Text → List Text → List Text
label_parts quote labels [] = []
label_parts quote labels (k ∷ ks) =
    (k ++ b'=' ∷ quote (or_zero [] (lookup k labels))) ∷ label_parts quote labels ks

unfoldable pub render_labels : (Text → Text) → Dict Text → Text
render_labels quote [] = []
render_labels quote (l ∷ ls) =
    b'{' ∷ (join b',' (label_parts quote (l ∷ ls) (sort_strings (keys (l ∷ ls)))) ++ b'}' ∷ [])

abbrev pub header : Text → Text → Text → Text
header name help kind =
    codes "# HELP "
    ++ name
    ++ b' ' ∷ help
    ++ newline ∷ codes "# TYPE "
    ++ name
    ++ b' ' ∷ kind
    ++ newline ∷ []

abbrev pub no_errors : List Text → Text
no_errors [] = codes "1"
no_errors (e ∷ es) = codes "0"

unfoldable pub error_lines : List Text → Text
error_lines [] = []
error_lines (e ∷ es) = codes "# ERROR " ++ replace_all newline b' ' e ++ newline ∷ error_lines es

module _ {F : Type 0} ⦃fl : Float F⦄ (quote : Text → Text) where
  unfoldable pub render_sample : Text → Sample F → Text
  render_sample name s =
      name ++ render_labels quote s.labels ++ b' ' ∷ fl.format s.value ++ newline ∷ []

  unfoldable pub render_group : Text → List (Sample F) → Text
  render_group name [] = []
  render_group name (s ∷ g) = render_sample name s ++ render_group name g

  -- One family; a name with no group has no samples.
  unfoldable pub render_family : Text → List (Sample F) → Text
  render_family name [] = []
  render_family name (s ∷ g) = header name s.help s.kind ++ render_group name (s ∷ g)

  unfoldable pub render_families : Dict (List (Sample F)) → List Text → Text
  render_families groups [] = []
  render_families groups (n ∷ ns) =
      render_family n (or_zero [] (lookup n groups)) ++ render_families groups ns

  unfoldable pub render_prometheus : Snapshot F → Text
  render_prometheus snap =
      let groups = families snap.samples in
      render_families groups (sort_strings (keys groups))
      ++ header (codes "slurm_exporter_up") (codes "Whether every collector succeeded.")
          (codes "gauge")
      ++ codes "slurm_exporter_up "
      ++ no_errors snap.errors
      ++ newline
        ∷ header (codes "slurm_exporter_collection_duration_seconds")
            (codes "Total collection duration.") (codes "gauge")
      ++ codes "slurm_exporter_collection_duration_seconds "
      ++ fl.format snap.duration
      ++ newline ∷ error_lines snap.errors
