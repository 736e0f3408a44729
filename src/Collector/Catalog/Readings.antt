-- ===== src/Collector/Catalog/Readings.antt =====
-- The samples of the collectors that aggregate, and their metrics.
use slurm_insights_exporter.Prelude.{
  refl, Bool-cases, inl, inr, insert, List, [], ◌∷◌, Text, Dict, codes, lookup, text_eq, All-append,
}
use slurm_insights_exporter.Float.{Float, num}
use slurm_insights_exporter.Clock.{Formats}
use slurm_insights_exporter.Parse.{lines, clean}
use slurm_insights_exporter.Collector.{Config, sample, merge}
use slurm_insights_exporter.Collector.Shared.{gauge}
use slurm_insights_exporter.Collector.KeyValues.{text_lines, key_values, value_at}
use slurm_insights_exporter.Collector.Queue.{
  Agg, queue_labels, queue_samples, queue_groups, read_queue,
}
use slurm_insights_exporter.Collector.Tres.{
  three_ways, cluster_samples, count_samples, expected_samples, profile_samples, Totals,
  node_resources, node_line, node_lines, read_nodes, Profiles,
}
use slurm_insights_exporter.Collector.Catalog.{IsListed, is_line}
use slurm_insights_exporter.Collector.Catalog.Rows.{
  All-if, AreListed, each_row-AreListed, running_job-AreListed,
}

module _ (F : Type 0) ⦃fl : Float F⦄ (cfg : Config) where
  queue_samples-AreListed : (m : Dict (Agg F)) → AreListed F cfg (queue_samples cfg m)
  unfolding queue_samples queue_labels sample lookup text_eq is_line
  queue_samples-AreListed [] = tt
  queue_samples-AreListed ((k, a) ∷ m) = (
    (refl, refl),
    (
      (refl, refl),
      (
        (refl, refl),
        ((refl, refl), ((refl, refl), ((refl, refl), ((refl, refl), queue_samples-AreListed m)))),
      ),
    ),
  )

  pub read_queue-AreListed :
      (formats : Formats) (b : Text) → AreListed F cfg (read_queue formats cfg b)
  unfolding read_queue
  read_queue-AreListed formats b =
      All-append (IsListed cfg) (queue_samples cfg (queue_groups (lines b))) _
        (queue_samples-AreListed (queue_groups (lines b)))
        (All-if (IsListed cfg) cfg.include_jobs _ []
          (each_row-AreListed F cfg _ (lines b) (running_job-AreListed F cfg formats)) tt)

  node_tres-AreListed :
      (n r : Text) (total used : F)
      → AreListed F cfg (
          three_ways
            (codes "node_tres")
            (codes "Per-node trackable resources by disposition")
            ((codes "cluster", cfg.cluster) ∷ (codes "node", n) ∷ (codes "resource", r) ∷ [])
            total
            used)
  unfolding three_ways sample lookup text_eq is_line merge insert
  node_tres-AreListed n r total used = ((refl, refl), ((refl, refl), ((refl, refl), tt)))

  cluster_tres-AreListed :
      (r : Text) (total used : F)
      → AreListed F cfg (
          three_ways
            (codes "cluster_tres")
            (codes "Cluster trackable resources by disposition; memory is bytes")
            ((codes "cluster", cfg.cluster) ∷ (codes "resource", r) ∷ [])
            total
            used)
  unfolding three_ways sample lookup text_eq is_line merge insert
  cluster_tres-AreListed r total used = ((refl, refl), ((refl, refl), ((refl, refl), tt)))

  cluster_samples-AreListed : (m : Dict (Totals F)) → AreListed F cfg (cluster_samples cfg m)
  unfolding cluster_samples
  cluster_samples-AreListed [] = tt
  cluster_samples-AreListed ((r, t) ∷ m) =
      All-append (IsListed cfg) (three_ways _ _ _ t.configured t.allocated) (cluster_samples cfg m)
        (cluster_tres-AreListed r t.configured t.allocated) (cluster_samples-AreListed m)

  count_samples-AreListed : (m : Dict F) → AreListed F cfg (count_samples cfg m)
  unfolding count_samples sample lookup text_eq is_line
  count_samples-AreListed [] = tt
  count_samples-AreListed ((key, count) ∷ m) = ((refl, refl), count_samples-AreListed m)

  expected_samples-AreListed :
      (profile : Text) (m : Dict F) → AreListed F cfg (expected_samples cfg profile m)
  unfolding expected_samples sample lookup text_eq is_line
  expected_samples-AreListed profile [] = tt
  expected_samples-AreListed profile ((resource, value) ∷ m) =
      ((refl, refl), expected_samples-AreListed profile m)

  profile_samples-AreListed :
      (configs : Dict Text) (m : Dict (Dict F)) → AreListed F cfg (profile_samples cfg configs m)
  unfolding profile_samples sample lookup text_eq is_line
  profile_samples-AreListed configs [] = tt
  profile_samples-AreListed configs ((profile, values) ∷ m) = (
    (refl, refl),
    All-append (IsListed cfg) (expected_samples cfg profile values) (profile_samples cfg configs m)
        (expected_samples-AreListed profile values) (profile_samples-AreListed configs m),
  )

  node_resources-AreListed :
      (node : Text) (have used : Dict F) (rs : List Text) (acc : Profiles F)
      → AreListed F cfg acc.out
      → AreListed F cfg (node_resources cfg node have used rs acc).out
  unfolding node_resources
  node_resources-AreListed node have used [] acc h = h
  node_resources-AreListed node have used (r ∷ rs) acc h =
      node_resources-AreListed node have used rs _
        (All-append (IsListed cfg) acc.out (three_ways _ _ _ _ _) h (node_tres-AreListed _ _ _ _))

  assigned-AreListed :
      (n p v ps : Text)
      → AreListed F cfg (
          gauge
            (codes "node_profile_assignment")
            (codes "Configured hardware profile assigned to a node")
            (num 1)
            ((codes "cluster", cfg.cluster)
              ∷ (codes "node", n)
              ∷ (codes "profile", p)
              ∷ (codes "state", v)
              ∷ (codes "partitions", ps)
              ∷ [])
          ∷ [])
  unfolding sample lookup text_eq is_line
  assigned-AreListed n p v ps = ((refl, refl), tt)

  node_line-AreListed :
      (digest : Text → Text) (line : Text) (acc : Profiles F)
      → AreListed F cfg acc.out
      → AreListed F cfg (node_line digest cfg line acc).out
  unfolding node_line
  node_line-AreListed digest line acc h =
      elim (Bool-cases (text_eq (clean (value_at (codes "NodeName") (key_values line))) [])) [
        | inl e ↦ rw e h
        | inr e ↦ rw e (
            node_resources-AreListed _ _ _ _ _ (
              All-append (IsListed cfg) acc.out (gauge _ _ _ _ ∷ []) h
                (assigned-AreListed _ _ _ _)))
      ]

  node_lines-AreListed :
      (digest : Text → Text) (ls : List Text) (acc : Profiles F)
      → AreListed F cfg acc.out
      → AreListed F cfg (node_lines digest cfg ls acc).out
  unfolding node_lines
  node_lines-AreListed digest [] acc h = h
  node_lines-AreListed digest (l ∷ ls) acc h =
      node_lines-AreListed digest ls (node_line digest cfg l acc)
        (node_line-AreListed digest l acc h)

  pub read_nodes-AreListed :
      (digest : Text → Text) (b : Text) → AreListed F cfg (read_nodes digest cfg b)
  unfolding read_nodes
  read_nodes-AreListed digest b =
      All-append (IsListed cfg) _ _
        (All-append (IsListed cfg) _ _
          (All-append (IsListed cfg) _ _ (node_lines-AreListed digest (text_lines b) _ tt)
            (cluster_samples-AreListed _))
          (count_samples-AreListed _))
        (profile_samples-AreListed _ _)
