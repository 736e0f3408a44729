-- ===== src/Tests/Metrics.antt =====
-- A collection of internal/slurm/collector.go by its ten collectors, where no command runs, and with an
-- entry of the slow tier.
use slurm_insights_exporter.Prelude.{
  ℕ, ◌≤◌, ◌≡◌, refl, List, [], ◌∷◌, none, codes, Dict, All, ℤ, pos, lookup, text_eq, Bool-cases,
  inl, inr, arith,
}
use slurm_insights_exporter.Float.Whole.{whole}
use slurm_insights_exporter.Collector.{SlowResult, sample, snapshot_of}
use slurm_insights_exporter.Collector.Pool.{Task, Pool, Run, pool_of}
use slurm_insights_exporter.Collector.Pool.Ends.{IsSent, work, finish}
use slurm_insights_exporter.Collector.Schedule.{tasks}
use slurm_insights_exporter.Collector.Catalog.{IsListed, is_line}
use slurm_insights_exporter.Collector.Catalog.Snapshots.{AreEntriesListed, collection_metrics}
use slurm_insights_exporter.Render.{families}
use slurm_insights_exporter.Render.Names.{own_names, families-own_names}
use slurm_insights_exporter.Tests.Collections.{now, cfg, formats, broken, by_name}

abbrev entry : SlowResult ℤ
entry = record {
  at = 1;
  outcome = record {
    samples =
        sample (codes "fairshare_factor") (codes "Fair-share factor") (codes "gauge") (pos 1)
          ((codes "cluster", []) ∷ (codes "account", []) ∷ [])
        ∷ [];
    jobs = [];
    err = none;
  };
}

abbrev entries : Dict (SlowResult ℤ)
entries = (codes "fairshare", entry) ∷ []

entries-AreEntriesListed : AreEntriesListed cfg entries
unfolding lookup sample text_eq is_line
entries-AreEntriesListed k = elim (Bool-cases (text_eq (codes "fairshare") k)) [
  | inl e ↦ rw e ((refl, refl), tt)
  | inr e ↦ rw e tt
]

abbrev ten_tasks : List (Task ℤ ℕ)
ten_tasks = tasks now formats (λ t. t) broken cfg

enough : work (pool_of ten_tasks entries).threads ≤ 50
unfolding tasks
enough = omega arith

abbrev whole_run :
    (n : ℕ) × (q : Pool ℤ ℕ) × Run now cfg n (pool_of ten_tasks entries) q × All IsSent q.threads
whole_run = finish now cfg 5 50 (pool_of ten_tasks entries) enough

abbrev after : Pool ℤ ℕ
after = whole_run.1

collection_metrics_example :
    All (IsListed cfg) (snapshot_of by_name 5 9 after.shared.channel).samples
    × AreEntriesListed cfg after.shared.slow_data
collection_metrics_example =
    collection_metrics now cfg formats (λ t. t) broken by_name 5 9 entries entries-AreEntriesListed
      whole_run.2

families-own_names_example :
    All
      (λ name. lookup name (families (snapshot_of by_name 5 9 after.shared.channel).samples) ≡ none)
      own_names
families-own_names_example =
    families-own_names now cfg formats (λ t. t) broken by_name 5 9 entries entries-AreEntriesListed
      whole_run.2
