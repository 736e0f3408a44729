-- ===== src/Tests/Pools.antt =====
-- A collection of internal/slurm/collector.go by two goroutines, interleaved.
use slurm_insights_exporter.Prelude.{
  ◌+◌, refl, true, false, List, [], ◌∷◌, some, codes, All, Dict, ℤ, ℕ, lookup, text_eq,
}
use slurm_insights_exporter.Float.Whole.{whole}
use slurm_insights_exporter.Clock.{time_sub}
use slurm_insights_exporter.Collector.{World, SlowResult, Outcome, report}
use slurm_insights_exporter.Collector.Pool.{
  Task, Pool, sent, Run, stay, next, here, there, begins, runs_fast, reads, runs, serves, sends,
  pool_of,
}
use slurm_insights_exporter.Collector.Pool.Answers.{
  Distinct, IsReply, task_names, collection_answers,
}
use slurm_insights_exporter.Tests.Collections.{now, cfg, success_of, failing, good_entry}

abbrev nodes_task : Task ℤ ℕ
nodes_task = record { name = codes "nodes"; is_slow = false; fn = λ w. (success_of 3, w + 4) }

abbrev fairshare_task : Task ℤ ℕ
fairshare_task = record { name = codes "fairshare"; is_slow = true; fn = failing }

abbrev two_tasks : List (Task ℤ ℕ)
two_tasks = nodes_task ∷ fairshare_task ∷ []

abbrev entries : Dict (SlowResult ℤ)
entries = (codes "fairshare", good_entry) ∷ []

two_tasks-Distinct : Distinct (task_names two_tasks)
two_tasks-Distinct = (((λ e. cc), tt), (tt, tt))

abbrev sent_by_nodes : Outcome ℤ
sent_by_nodes = report (codes "nodes") 91 103 (success_of 3)

abbrev sent_by_fairshare : Outcome ℤ
sent_by_fairshare =
    report (codes "fairshare") 96 102 (record (success_of 7) { err = some (codes "exit 1") })

-- `fairshare` has sent first, the data of its entry beside its error.
abbrev completed : Pool ℤ ℕ
completed = record {
  threads =
      record { task = nodes_task; phase = sent sent_by_nodes }
      ∷ record { task = fairshare_task; phase = sent sent_by_fairshare }
      ∷ [];
  shared = record { slow_data = entries; channel = sent_by_fairshare ∷ sent_by_nodes ∷ [] };
}

interleaved : Run now cfg 8 (pool_of two_tasks entries) completed
unfolding lookup text_eq time_sub
interleaved = next (here (begins 90)) (
    next (there (here (begins 95))) (
      next (there (here (reads refl))) (
        next (here (runs_fast 99 refl)) (
          next (there (here (runs 100 refl))) (
            next (there (here (serves refl)))
              (next (there (here (sends 101))) (next (here (sends 102)) stay)))))))

collection_answers_example :
    All (IsReply now cfg entries completed.shared.slow_data) completed.threads
collection_answers_example =
    collection_answers now cfg two_tasks entries two_tasks-Distinct interleaved

abbrev world : World ℤ ℕ
world = record { env = 100; slow_data = entries }
