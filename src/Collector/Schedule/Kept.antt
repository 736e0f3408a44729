-- ===== src/Collector/Schedule/Kept.antt =====
-- What whole collections of internal/slurm/collector.go leave in the slow tier's cache.
use slurm_insights_exporter.Prelude.{
  ◌≡◌, ◌≢◌, sym, ◌∙◌, subst, Bool-cases, inl, inr, List, [], ◌∷◌, none, some, Text, codes, lookup,
  text_eq, text_eq_iff, All, arith,
}
use slurm_insights_exporter.Float.{Float}
use slurm_insights_exporter.Model.{Time, Sample}
use slurm_insights_exporter.Clock.{Formats}
use slurm_insights_exporter.Sorting.{SliceSort}
use slurm_insights_exporter.Collector.{
  Config, Outcome, SlowResult, World, Named, fast, slow, run_one, run_all, collect,
}
use slurm_insights_exporter.Collector.Shared.{Runner}
use slurm_insights_exporter.Collector.Slow.{slow-IsServed, lookup-slow_ne}
use slurm_insights_exporter.Collector.Schedule.{schedule, tasks, fast_entry, slow_entry}

module _ {F W : Type 0} where
  -- The cache holds an entry for `k`, and it is one of a success.
  abbrev pub IsGood : Text → World F W → Type 0
  IsGood k w =
      (entry : SlowResult F) × (lookup k w.slow_data ≡ some entry) × (entry.outcome.err ≡ none)

  abbrev pub Keeps : Text → Named F W → Type 0
  Keeps k c = (w : World F W) → IsGood k w → IsGood k (c.fn w).1

module _ {F W : Type 0} (now : W → Time) (k name : Text) (fn : W → Outcome F × W) where
  fast-Keeps : Keeps k (fast_entry now name fn)
  fast-Keeps w g = unfold fast in g

module _ {F W : Type 0} (now : W → Time) (cfg : Config) (k name : Text)
    (fn : W → Outcome F × W) where
  slow_same-Keeps : k ≡ name → Keeps k (slow_entry now cfg name fn)
  slow_same-Keeps same w (good, found, ok) =
      let (entry, left, fine, _, _) =
        slow-IsServed now cfg name fn w good
          (subst (λ n. lookup n w.slow_data ≡ some good) same found) ok in
      (
        entry,
        subst (λ n. lookup n (slow now cfg name fn w).1.slow_data ≡ some entry) (sym same) left,
        fine,
      )

  slow_other-Keeps : k ≢ name → Keeps k (slow_entry now cfg name fn)
  slow_other-Keeps other w (good, found, ok) =
      (good, lookup-slow_ne now cfg name fn w k other ∙ found, ok)

  slow-Keeps : Keeps k (slow_entry now cfg name fn)
  slow-Keeps = elim (Bool-cases (text_eq k name)) [
    | inl e ↦ slow_same-Keeps ((text_eq_iff k name).0 e)
    | inr e ↦ slow_other-Keeps (λ p. ground (arith, (text_eq_iff k name).1 p))
  ]

module _ (F : Type 0) {W : Type 0} ⦃fl : Float F⦄ (now : W → Time) where
  schedule-Keeps :
      (formats : Formats) (digest : Text → Text) (runner : Runner W) (cfg : Config) (k : Text)
      → All (Keeps k) (schedule {F = F} now formats digest runner cfg)
  unfolding schedule tasks
  schedule-Keeps formats digest runner cfg k = (
    fast-Keeps now k (codes "nodes") _,
    (
      fast-Keeps now k (codes "partitions") _,
      (
        fast-Keeps now k (codes "queue") _,
        (
          slow-Keeps now cfg k _ _,
          (
            slow-Keeps now cfg k _ _,
            (
              slow-Keeps now cfg k _ _,
              (
                slow-Keeps now cfg k _ _,
                (
                  slow-Keeps now cfg k _ _,
                  (slow-Keeps now cfg k _ _, (slow-Keeps now cfg k _ _, tt)),
                ),
              ),
            ),
          ),
        ),
      ),
    ),
  )

module _ {F W : Type 0} ⦃fl : Float F⦄ (now : W → Time) where
  run_one-Keeps :
      (k : Text) (c : Named F W)
      → Keeps k c
      → (w : World F W) → IsGood k w
      → IsGood k (run_one now c w).1
  unfolding run_one
  run_one-Keeps k c keeps w g = keeps w g

  run_all-Keeps :
      (k : Text) (cs : List (Named F W))
      → All (Keeps k) cs
      → (w : World F W) → IsGood k w
      → IsGood k (run_all now cs w).1
  unfolding run_all
  run_all-Keeps k [] h w g = g
  run_all-Keeps k (c ∷ cs) h w g =
      run_all-Keeps k cs h.1 (run_one now c w).1 (run_one-Keeps k c h.0 w g)

  module _ (formats : Formats) (digest : Text → Text) (runner : Runner W) (cfg : Config) where
    -- A collection of the ten collectors, whatever their commands return, never takes the cache of
    -- the slow tier from an entry of a success to none or to one of an error.
    pub collect-IsGood :
        (by_name : SliceSort {A = Sample F} (λ s. s.name)) (k : Text) (w : World F W)
        → IsGood k w
        → IsGood k (collect now by_name (schedule now formats digest runner cfg) w).1
    unfolding collect
    collect-IsGood by_name k w g =
        run_all-Keeps k (schedule now formats digest runner cfg)
          (schedule-Keeps F now formats digest runner cfg k) w g
