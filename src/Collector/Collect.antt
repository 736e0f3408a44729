-- ===== src/Collector/Collect.antt =====
-- `Collect` of internal/slurm/collector.go: what a snapshot holds, whatever order the collectors
-- finish in.
use mathlib.Core.List.{Perm, Pairwise}
use slurm_insights_exporter.Prelude.{
  join_map, ◌≡◌, ◌↔◌, refl, ◌∙◌, subst, false, List, [], ◌∷◌, ◌++◌, append_assoc, append-nil, none,
  All, text_lt, arith,
}
use slurm_insights_exporter.Float.{Float, num}
use slurm_insights_exporter.Model.{Time, Sample, Snapshot}
use slurm_insights_exporter.Sorting.{SliceSort}
use slurm_insights_exporter.Collector.{
  Outcome, World, Named, run_all, message, gather, collect, snapshot_of,
}

module _ {F : Type 0} where
  gather-samples :
      (os : List (Outcome F)) (snap : Snapshot F)
      → (gather os snap).samples ≡ snap.samples ++ join_map (λ o. o.samples) os
  unfolding gather
  gather-samples [] snap = rw append-nil
  gather-samples (o ∷ os) snap = gather-samples os _ ∙ append_assoc snap.samples o.samples _

  gather-jobs :
      (os : List (Outcome F)) (snap : Snapshot F)
      → (gather os snap).jobs ≡ snap.jobs ++ join_map (λ o. o.jobs) os
  unfolding gather
  gather-jobs [] snap = rw append-nil
  gather-jobs (o ∷ os) snap = gather-jobs os _ ∙ append_assoc snap.jobs o.jobs _

  gather-errors :
      (os : List (Outcome F)) (snap : Snapshot F)
      → (gather os snap).errors ≡ snap.errors ++ join_map (λ o. message o.err) os
  unfolding gather
  gather-errors [] snap = rw append-nil
  gather-errors (o ∷ os) snap = gather-errors os _ ∙ append_assoc snap.errors (message o.err) _

  pub errors_nil :
      (os : List (Outcome F)) → (join_map (λ o. message o.err) os ≡ []) ↔ All (λ o. o.err ≡ none) os
  errors_nil [] = (λ _. tt, λ _. refl)
  errors_nil (o ∷ os) =
      (λ e. ground (arith, (errors_nil os).0), λ a. ground (arith, (errors_nil os).1))

-- What a snapshot holds of the outcomes that it is made of.
abbrev pub IsSnapshot : {F : Type 0} → List (Outcome F) → Snapshot F → Type 0
IsSnapshot os snap =
    Perm snap.samples (join_map (λ o. o.samples) os)
    × Pairwise (λ a b. text_lt b.name a.name ≡ false) snap.samples
    × (snap.jobs ≡ join_map (λ o. o.jobs) os)
    × (snap.errors ≡ join_map (λ o. message o.err) os)

module _ {F : Type 0} ⦃fl : Float F⦄ (by_name : SliceSort {A = Sample F} (λ s. s.name))
    (began ended : Time) (os : List (Outcome F)) where
  pub snapshot_of-IsSnapshot : IsSnapshot os (snapshot_of by_name began ended os)
  unfolding snapshot_of
  snapshot_of-IsSnapshot =
      let start : Snapshot F = record {
        collected_at = began;
        duration = num 0;
        samples = [];
        jobs = [];
        errors = [];
      } in
      let sorted = by_name.sort-perm (gather os start).samples in
      (
        subst (λ xs. Perm (by_name.sort (gather os start).samples) xs) (gather-samples os start)
            sorted,
        by_name.sort-IsSorted (gather os start).samples,
        gather-jobs os start,
        gather-errors os start,
      )

module _ {F W : Type 0} ⦃fl : Float F⦄ (now : W → Time)
    (by_name : SliceSort {A = Sample F} (λ s. s.name)) (schedule : List (Named F W))
    (w : World F W) where
  -- The snapshot of a collection holds every collector's samples, each once and in the order of
  -- their names, and the jobs and errors of all collectors as they arrived; a collector that fails
  -- takes nothing away from the others.
  pub collect_parts :
      let os = (run_all now schedule w).0 in
      let snap = (collect now by_name schedule w).0 in
      Perm snap.samples (join_map (λ o. o.samples) os)
      × Pairwise (λ a b. text_lt b.name a.name ≡ false) snap.samples
      × (snap.jobs ≡ join_map (λ o. o.jobs) os)
      × (snap.errors ≡ join_map (λ o. message o.err) os)
  unfolding collect
  collect_parts =
      let (os, w') = run_all now schedule w in
      snapshot_of-IsSnapshot by_name (now w.env) (now w'.env) os

  -- A snapshot reports no error exactly if every collector succeeded.
  pub collect-errors_nil :
      ((collect now by_name schedule w).0.errors ≡ [])
      ↔ All (λ o. o.err ≡ none) (run_all now schedule w).0
  collect-errors_nil = rw (collect_parts.3) (errors_nil (run_all now schedule w).0)
