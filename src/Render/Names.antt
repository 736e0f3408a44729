-- ===== src/Render/Names.antt =====
-- The names of the families of internal/slurm/render.go beside the metrics that it, and `/metrics` of
-- cmd/slurm-insights-exporter/main.go behind it, write by themselves.
use slurm_insights_exporter.Prelude.{
  ℕ, ◌≡◌, refl, ap, ◌∙◌, Bool-cases, inl, inr, List, [], ◌∷◌, none, some, Text, Dict, codes, lookup,
  keys, filter, text_eq, text_eq_iff, All, arith,
}
use slurm_insights_exporter.Float.{Float}
use slurm_insights_exporter.Model.{Time, Sample}
use slurm_insights_exporter.Clock.{Formats}
use slurm_insights_exporter.Sorting.{SliceSort}
use slurm_insights_exporter.Collector.{Config, SlowResult, snapshot_of}
use slurm_insights_exporter.Collector.Shared.{Runner}
use slurm_insights_exporter.Collector.Pool.{Pool, Run, pool_of}
use slurm_insights_exporter.Collector.Schedule.{tasks}
use slurm_insights_exporter.Collector.Catalog.{IsListed, catalog}
use slurm_insights_exporter.Collector.Catalog.Snapshots.{AreEntriesListed, collection_metrics}
use slurm_insights_exporter.Render.{families}
use slurm_insights_exporter.Render.Families.{nonempty, lookup-families}

-- The metrics that no collector reports.
abbrev pub own_names : List Text
own_names =
    codes "slurm_exporter_up"
    ∷ codes "slurm_exporter_collection_duration_seconds"
    ∷ codes "slurm_history_enabled"
    ∷ codes "slurm_history_sequence"
    ∷ codes "slurm_history_tracked_jobs"
    ∷ codes "slurm_history_last_write_timestamp_seconds"
    ∷ []

abbrev IsUnlisted : Config → Text → Type 0
IsUnlisted cfg n = lookup n (catalog cfg) ≡ none

own_names-IsUnlisted : (cfg : Config) → All (IsUnlisted cfg) own_names
unfolding lookup text_eq
own_names-IsUnlisted cfg = (refl, (refl, (refl, (refl, (refl, (refl, tt))))))

not_both {ℓ} :
    {V : Type ℓ} (m : Dict V) (a b : Text) (k : V)
    → a ≡ b
    → lookup b m ≡ none
    → lookup a m ≡ some k
    → ⊥
not_both m a b k e absent found =
    let same = ap (λ t. lookup t m) e in ground (arith, same, absent, found)

module _ (F : Type 0) (cfg : Config) where
  named-nil :
      (n : Text) (xs : List (Sample F))
      → IsUnlisted cfg n
      → All (IsListed cfg) xs
      → filter (λ (s : Sample F). text_eq s.name n) xs ≡ []
  named-nil n [] e h = refl
  named-nil n (s ∷ xs) e h = elim (Bool-cases (text_eq s.name n)) [
    | inl same ↦ absurd (
        not_both (catalog cfg) s.name n (s.kind, keys s.labels) ((text_eq_iff s.name n).0 same) e
          h.0.0)
    | inr other ↦ rw other (named-nil n xs e h.1)
  ]

  no_family :
      (ns : List Text) (xs : List (Sample F))
      → All (IsUnlisted cfg) ns
      → All (IsListed cfg) xs
      → All (λ n. lookup n (families xs) ≡ none) ns
  no_family [] xs us h = tt
  no_family (n ∷ ns) xs us h =
      (lookup-families F n xs ∙ ap nonempty (named-nil n xs us.0 h), no_family ns xs us.1 h)

-- No metric family of a snapshot has the name of a metric that is written beside the families, for
-- `/metrics`, so no metric is declared twice, if the entries that the slow tier has are of the
-- catalog.
pub families-own_names :
    {F W : Type 0} ⦃fl : Float F⦄ (now : W → Time) (cfg : Config) (formats : Formats)
    (digest : Text → Text) (runner : Runner W) (by_name : SliceSort {A = Sample F} (λ s. s.name))
    (began ended : Time) (m : Dict (SlowResult F)) {n : ℕ} {q : Pool F W}
    → AreEntriesListed cfg m
    → Run now cfg n (pool_of (tasks now formats digest runner cfg) m) q
    → let snap = snapshot_of by_name began ended q.shared.channel in
      All (λ name. lookup name (families snap.samples) ≡ none) own_names
families-own_names {F} now cfg formats digest runner by_name began ended m h r =
    no_family F cfg own_names _ (own_names-IsUnlisted cfg)
      (collection_metrics now cfg formats digest runner by_name began ended m h r).0
